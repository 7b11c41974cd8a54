-- ===== src/Shell/Main.antt =====
-- Assignment3/wonderShell/wonderShell.c: the loop of `main`.
--
-- The lines that the user enters are a list. Behind the last one `read_command` calls itself for
-- ever: the outcome is `waiting`.
use osassignments.Common.{
  ℕ, ◌≡◌, Bool, true, false, List, [], ◌∷◌, if◌then◌else◌, get_elem?, length, ltb,
}
use osassignments.Common.Int.{ℤ, pos}
use osassignments.Shell.Text.{Text, text, same_text}
use osassignments.Shell.Jobs.{update_job_status}
use osassignments.Shell.Reminder.{Alarm, chk_alarm}
use osassignments.Shell.Parse.{Request, alone, piped, splitcommands}
use osassignments.Shell.Process.{
  M, Os, Outcome, Shell, ◌>>=◌, ◌>>◌, call, close, crashed, gone, done, dup, dup2, getcwd, leave,
  pure, read_stat, reminded, set_child_pid, time, waiting,
}
use osassignments.Shell.Process.Laws.{IfDone, IfDone-follow, IfDone-if}
use osassignments.Shell.Dispatch.{Show}
use osassignments.Shell.Redirect.{chk_file}
use osassignments.Shell.Redirect.Laws.{IfDone-returns, returns}
use osassignments.Shell.Pipeline.{fork_pipes}

-- `argumentList` with the words of a command, and what it held behind them.
abbrev pub fill : List Text → M Unit
fill cmd s =
    done tt (record s { list = λ i. if ltb i (length cmd) then get_elem? cmd i else s.list i })

abbrev pub set_alarm_to : Alarm → M Unit
set_alarm_to alarm s = done tt (record s { alarm = alarm })

module _ (os : Os) (rounds : ℕ) (home : Text) (shows : Show → ℕ → M Unit)
    (stray : Text → Bool) where
  unfoldable pub run_request : Request → M Unit
  run_request (alone cmd) = fill cmd >> chk_file os rounds home shows (length cmd)
  run_request (piped cmds) = fork_pipes os rounds home shows stray cmds

  unfoldable pub run_requests : List Request → M Unit
  unfolding run_request
  run_requests [] = pure tt
  run_requests (request ∷ requests) = run_request request >> run_requests requests

  -- `chkAlarm` asks for the time only where an alarm is set.
  unfoldable pub look_at_alarm : M Unit
  unfolding call
  look_at_alarm s =
      (if s.alarm.time_vld
          then (call os time >>= λ now.
              call os (reminded (chk_alarm now s.alarm).1)
              >> set_alarm_to (chk_alarm now s.alarm).0)
          else pure tt)
        s

  unfoldable pub update_jobs : M Unit
  update_jobs s = done tt (record s {
    this_jobs = update_job_status (λ pid. os.letter (read_stat pid ∷ s.calls)) s.this_jobs;
  })

  -- What follows a line that is not `quit`.
  unfoldable pub obey : ℤ → ℤ → Text → M Unit
  unfolding call run_requests update_jobs
  obey a b line = do
    run_requests (splitcommands line)
    update_jobs
    call os (dup2 a (pos 0))
    call os (dup2 b (pos 1))
    call os (close a)
    call os (close b)
    pure tt

  unfoldable pub main_loop : List Text → M Unit
  unfolding call look_at_alarm obey
  main_loop [] = waiting
  main_loop (line ∷ lines) = do
    set_child_pid (pos 0)
    a ← call os (dup (pos 0))
    b ← call os (dup (pos 1))
    call os getcwd
    look_at_alarm
    if same_text line (text "quit\n") then leave else (obey a b line >> main_loop lines)

any : {A : Type 0} (o : Outcome A) → IfDone (λ _ _. Unit) o
any (done a s) = tt
any (crashed s) = tt
any (gone s) = tt
any (waiting s) = tt

module _ (os : Os) (rounds : ℕ) (home : Text) (shows : Show → ℕ → M Unit)
    (stray : Text → Bool) where
  main_loop-never :
      (lines : List Text) (s : Shell)
      → IfDone (λ _ _. true ≡ false) (main_loop os rounds home shows stray lines s)
  unfolding main_loop call
  main_loop-never [] s = tt
  main_loop-never (line ∷ lines) s =
      let a = os.reply (dup (pos 0) ∷ s.calls) in
      let b = os.reply (dup (pos 1) ∷ dup (pos 0) ∷ s.calls) in
      let start : Shell = record s {
        child_pid = pos 0;
        calls = getcwd ∷ dup (pos 1) ∷ dup (pos 0) ∷ s.calls;
      } in
      let look : M Unit = look_at_alarm os rounds home shows stray in
      let first : M Unit = obey os rounds home shows stray a b line in
      let others : M Unit = main_loop os rounds home shows stray lines in
      let Any : Unit → Shell → Type 0 = λ _ _. Unit in
      let Never : Unit → Shell → Type 0 = λ _ _. true ≡ false in
      IfDone-follow Any Never (look start)
        (λ _. if same_text line (text "quit\n") then leave else (first >> others))
        (any (look start))
        (λ _ t _. IfDone-if Never (same_text line (text "quit\n")) leave (first >> others) t tt (
          IfDone-follow Any Never (first t) (λ _. others) (any (first t))
            (λ _ u _. main_loop-never lines u)))

  -- The loop of main is left only by quit, by a null pointer that is followed, by becoming another
  -- program or by waiting: it never comes to the end of main, whatever is typed and answered.
  main_loop-returns :
      (lines : List Text) (s : Shell)
      → returns (main_loop os rounds home shows stray lines s) ≡ false
  main_loop-returns lines s = IfDone-returns _ (main_loop-never lines s)
