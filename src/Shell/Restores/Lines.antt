-- ===== src/Shell/Restores/Lines.antt =====
-- Assignment3/wonderShell/wonderShell.c: after every line the input and output of the shell are what
-- they were before it.
use osassignments.Common.{
  ℕ, ◌≡◌, refl, Bool, false, Option, none, some, List, [], ◌∷◌, get_elem?, length,
}
use osassignments.Common.Int.{ℤ, pos, eq_ℤ}
use osassignments.Shell.Text.{Text}
use osassignments.Shell.Parse.{Request, alone, piped}
use osassignments.Shell.Reminder.{chk_alarm}
use osassignments.Shell.Process.{
  M, Os, Call, ◌>>◌, call, close, dup2, fork, pipe, pure, reminded, run_child, time,
}
use osassignments.Shell.Process.Laws.{IfDone}
use osassignments.Shell.Dispatch.{Show}
use osassignments.Shell.Redirect.{chk_file}
use osassignments.Shell.Pipeline.{
  chk_inpt, chk_inpt_name, execute_command, fork_pipes, last_stage, redirect, stages_from,
}
use osassignments.Shell.Main.{look_at_alarm, run_request, run_requests}
use osassignments.Shell.Restores.{Since, more, is_mild, IsTaken}
use osassignments.Shell.Restores.Actions.{
  Keeps, Keeps-bind, Keeps-if, Keeps-pure, Keeps-call, Keeps-run_child, Keeps-wait_until_ended,
}
use osassignments.Shell.Restores.Redirects.{IsHigh, Keeps-chk_file, close-is_mild, dup2-is_mild}

module _ (os : Os) (d : ℤ) (base : List Call) (taken : IsTaken os d base) (high : IsHigh d)
    (rounds : ℕ) (home : Text) (shows : Show → ℕ → M Unit)
    (shown : (show : Show) (len : ℕ) → Keeps os d base (shows show len)) (stray : Text → Bool) where
  file_run : (len : ℕ) → Keeps os d base (chk_file os rounds home shows len)
  file_run = Keeps-chk_file os d base taken high rounds home shows shown

  -- The call `close(e)` and the call `dup2(from, to)` for other descriptors.
  closes : (e : ℤ) → eq_ℤ d e ≡ false → Keeps os d base (call os (close e))
  closes e h =
      Keeps-call os d base (close e)
        (close-is_mild os d base taken high rounds home shows shown e h)

  moves : (from to : ℤ) → eq_ℤ d to ≡ false → Keeps os d base (call os (dup2 from to))
  moves from to h =
      Keeps-call os d base (dup2 from to)
        (dup2-is_mild os d base taken high rounds home shows shown from to h)

  Keeps-redirect :
      (from to : ℤ)
      → eq_ℤ d from ≡ false
      → eq_ℤ d to ≡ false
      → Keeps os d base (redirect os rounds home shows stray from to)
  unfolding redirect
  Keeps-redirect from to hf ht =
      Keeps-if os d base (eq_ℤ from to) (pure tt) _ (Keeps-pure os d base tt) (
        Keeps-bind os d base (call os (dup2 from to) >> call os (close from)) (λ _. pure tt)
          (Keeps-bind os d base (call os (dup2 from to)) (λ _. call os (close from))
            (moves from to ht) (λ _. closes from hf))
          (λ _. Keeps-pure os d base tt))

  Keeps-chk_inpt : Keeps os d base (chk_inpt os rounds home shows stray)
  unfolding chk_inpt chk_inpt_name
  Keeps-chk_inpt s i = go (s.list 0)
    where
      go :
          (a : Option Text)
          → IfDone (λ _ t. Since os d base t.calls) (chk_inpt_name os rounds home shows stray a s)
      go none = tt
      go (some name) = i

  Keeps-execute_command :
      (input output : ℤ) (cmd : List Text)
      → eq_ℤ d input ≡ false
      → eq_ℤ d output ≡ false
      → Keeps os d base (execute_command os rounds home shows stray input output cmd)
  unfolding execute_command is_mild
  Keeps-execute_command input output cmd hi ho s i =
      let moved : M Unit =
        redirect os rounds home shows stray input (pos 0)
        >> redirect os rounds home shows stray output (pos 1) in
      let ends : Keeps os d base moved =
        Keeps-bind os d base (redirect os rounds home shows stray input (pos 0))
          (λ _. redirect os rounds home shows stray output (pos 1))
          (Keeps-redirect input (pos 0) hi high.not_in)
          (λ _. Keeps-redirect output (pos 1) ho high.not_out) in
      Keeps-bind os d base (chk_inpt os rounds home shows stray) _ Keeps-chk_inpt
        (λ inside.
          Keeps-if os d base inside _ _
            (Keeps-bind os d base moved (λ _. chk_file os rounds home shows (length cmd)) ends
              (λ _. file_run (length cmd)))
            (Keeps-bind os d base (call os fork) _ (Keeps-call os d base fork refl) (λ pid.
              Keeps-if os d base (eq_ℤ pid (pos 0)) _ (pure tt)
                (Keeps-bind os d base moved (λ _. run_child os) ends
                  (λ _. Keeps-run_child os d base))
                (Keeps-pure os d base tt))))
        (record s { list = get_elem? cmd }) i

  Keeps-last_stage :
      (input : ℤ) (cmd : List Text)
      → Keeps os d base (last_stage os rounds home shows stray input cmd)
  unfolding last_stage is_mild
  Keeps-last_stage input cmd =
      Keeps-bind os d base _ _
        (Keeps-if os d base (eq_ℤ input (pos 0)) (pure tt) _ (Keeps-pure os d base tt) (
          Keeps-bind os d base (call os (dup2 input (pos 0))) (λ _. pure tt)
            (moves input (pos 0) high.not_in) (λ _. Keeps-pure os d base tt)))
        (λ _. Keeps-bind os d base (call os fork) _ (Keeps-call os d base fork refl) (λ pid s i.
          Keeps-if os d base (eq_ℤ pid (pos 0)) _ _ (file_run (length cmd))
            (Keeps-wait_until_ended os d base rounds pid) (record s { list = get_elem? cmd }) i))

  Keeps-stages_from :
      (input : ℤ) (cmd : List Text) (cmds : List (List Text))
      → eq_ℤ d input ≡ false
      → Keeps os d base (stages_from os rounds home shows stray input cmd cmds)
  unfolding stages_from call is_mild
  Keeps-stages_from input cmd [] h s i = Keeps-last_stage input cmd s i
  Keeps-stages_from input cmd (next ∷ cmds) h s i =
      let out_end = os.reply (pipe ∷ s.calls) in
      let in_end = os.reply (pipe ∷ pipe ∷ s.calls) in
      let j = more pipe refl i in
      let other = taken.not_pipe (pipe ∷ s.calls) j in
      Keeps-bind os d base (execute_command os rounds home shows stray input in_end cmd) _
        (Keeps-execute_command input in_end cmd h other)
        (λ _.
          Keeps-bind os d base (call os (close in_end)) _ (closes in_end other)
            (λ _. Keeps-stages_from out_end next cmds (taken.not_pipe s.calls i)))
        (record s { calls = pipe ∷ pipe ∷ s.calls }) (more pipe refl j)

  Keeps-run_request :
      (request : Request) → Keeps os d base (run_request os rounds home shows stray request)
  unfolding run_request fork_pipes
  Keeps-run_request (alone cmd) s i = file_run (length cmd) _ i
  Keeps-run_request (piped []) s i = i
  Keeps-run_request (piped (cmd ∷ cmds)) s i = Keeps-stages_from (pos 0) cmd cmds high.not_in s i

  pub Keeps-run_requests :
      (requests : List Request) → Keeps os d base (run_requests os rounds home shows stray requests)
  unfolding run_requests
  Keeps-run_requests [] s i = i
  Keeps-run_requests (request ∷ requests) s i =
      Keeps-bind os d base (run_request os rounds home shows stray request) _
        (Keeps-run_request request) (λ _. Keeps-run_requests requests) s i

  pub Keeps-look_at_alarm : Keeps os d base (look_at_alarm os rounds home shows stray)
  unfolding look_at_alarm call is_mild
  Keeps-look_at_alarm s i =
      Keeps-if os d base s.alarm.time_vld _ (pure tt)
        (λ t k.
          more (reminded (chk_alarm (os.reply (time ∷ t.calls)) s.alarm).1) refl (more time refl k))
        (Keeps-pure os d base tt) s i
