-- ===== src/Shell/Pipeline/Laws.antt =====
-- Assignment3/wonderShell/wonderShell.c: how many processes a pipeline starts.
use osassignments.Common.{
  ℕ, zero, suc, ◌+◌, ◌<◌, ◌≡◌, Bool-cases, inl, inr, refl, ap, ◌∙◌, Bool, true, false, ◌||◌,
  if◌then◌else◌, List, [], ◌∷◌, arith, Each, length, get_elem?,
}
use osassignments.Common.Int.{ℤ, pos, eq_ℤ, ltb_ℤ}
use osassignments.Shell.Text.{Text, text, same_text}
use osassignments.Shell.Process.{
  Call, M, Os, Shell, ◌>>◌, call, close, done, dup2, fork, pipe, pure, wait, wait_until_ended,
  waitpid,
}
use osassignments.Shell.Process.Laws.{
  IfDone, IfDone-follow, IfDone-mono, IfDone-if, waits, wait_until_ended_lem,
}
use osassignments.Shell.Redirect.Laws.{returns}
use osassignments.Shell.Dispatch.{Show}
use osassignments.Shell.Pipeline.{chk_inpt, execute_command, fork_pipes, last_stage, stages_from}

-- The shell is never the child, and `fork` succeeds.
abbrev pub IsParent : Os → Type 0
IsParent os = (calls : List Call) → ltb_ℤ (pos 0) (os.reply (fork ∷ calls)) ≡ true

pub parent-not_child :
    (os : Os) (calls : List Call) → IsParent os → eq_ℤ (os.reply (fork ∷ calls)) (pos 0) ≡ false
parent-not_child os calls p = ground (arith, p calls)

-- The processes started so far, which are the calls of `fork` that gave a number.
unfoldable pub forks : Os → List Call → ℕ
forks os [] = 0
forks os (fork ∷ calls) =
    let earlier = forks os calls in
    if ltb_ℤ (pos 0) (os.reply (fork ∷ calls)) then suc earlier else earlier
forks os (c ∷ calls) = forks os calls

forks-fork :
    (os : Os) (calls : List Call) → IsParent os → forks os (fork ∷ calls) ≡ suc (forks os calls)
unfolding forks
forks-fork os calls p = rw (p calls) refl

-- Every child is seen to have ended within the rounds.
abbrev pub IsPatient : Os → ℕ → Type 0
IsPatient os rounds =
    (pid : ℤ) (calls : List Call)
    → (k : ℕ) × (k < rounds)
      × ((i : ℕ) → i < k → os.ended (waits os (suc i) pid calls) ≡ false)
      × (os.ended (waits os (suc k) pid calls) ≡ true)

pub wait_until_ended-returns :
    (os : Os) (rounds : ℕ) (pid : ℤ) (s : Shell)
    → IsPatient os rounds
    → returns (wait_until_ended os rounds pid s) ≡ true
wait_until_ended-returns os rounds pid s patient =
    let (k, lt, early, late) = patient pid s.calls in
    rw (wait_until_ended_lem os k rounds pid s lt early late) refl

module _ (os : Os) where
  wait_until_ended-forks :
      (rounds : ℕ) (pid : ℤ) (s : Shell)
      → IfDone (λ _ t. forks os t.calls ≡ forks os s.calls) (wait_until_ended os rounds pid s)
  unfolding wait_until_ended wait forks
  wait_until_ended-forks zero pid s = tt
  wait_until_ended-forks (suc rounds) pid s =
      let after = record s { calls = waitpid pid ∷ s.calls } in
      IfDone-if (λ _ t. forks os t.calls ≡ forks os s.calls) (os.ended after.calls) (pure tt)
        (wait_until_ended os rounds pid) after refl (wait_until_ended-forks rounds pid after)

module _ (os : Os) (rounds : ℕ) (home : Text) (shows : Show → ℕ → M Unit)
    (stray : Text → Bool) where
  -- A command that has a name, which `chkInpt` does not take for `ls`.
  abbrev pub IsStage : List Text → Type 0
  IsStage [] = true ≡ false
  IsStage (name ∷ words) = (same_text name (text "ls") || stray name) ≡ false

  pub execute_command-parent :
      (input output : ℤ) (cmd : List Text) (s : Shell)
      → IsParent os
      → IsStage cmd
      → execute_command os rounds home shows stray input output cmd s
        ≡ done tt (record s { list = get_elem? cmd; calls = fork ∷ s.calls })
  unfolding execute_command chk_inpt call
  execute_command-parent input output [] s p h = cc
  execute_command-parent input output (name ∷ words) s p h =
      rw (h, parent-not_child os s.calls p) refl

  last_stage-forks :
      (input : ℤ) (cmd : List Text) (s : Shell)
      → IsParent os
      → IfDone
          (λ _ t. forks os t.calls ≡ suc (forks os s.calls))
          (last_stage os rounds home shows stray input cmd s)
  unfolding last_stage call forks
  last_stage-forks input cmd s p =
      let Same : Unit → Shell → Type 0 = λ _ t. forks os t.calls ≡ forks os s.calls in
      let More : Unit → Shell → Type 0 = λ _ t. forks os t.calls ≡ suc (forks os s.calls) in
      IfDone-follow Same More _ _
        (IfDone-if Same (eq_ℤ input (pos 0)) (pure tt) (call os (dup2 input (pos 0)) >> pure tt) s
          refl refl)
        (λ _ t e. rw (parent-not_child os t.calls p) (
          let start = record t { list = get_elem? cmd; calls = fork ∷ t.calls } in
          IfDone-mono _ More (wait_until_ended os rounds (os.reply (fork ∷ t.calls)) start)
            (λ _ u g. g ∙ (forks-fork os t.calls p ∙ ap suc e))
            (wait_until_ended-forks os rounds (os.reply (fork ∷ t.calls)) start)))

  stages_from-forks :
      (input : ℤ) (cmd : List Text) (cmds : List (List Text)) (s : Shell)
      → IsParent os
      → Each IsStage (cmd ∷ cmds)
      → IfDone
          (λ _ t. forks os t.calls ≡ length (cmd ∷ cmds) + forks os s.calls)
          (stages_from os rounds home shows stray input cmd cmds s)
  unfolding stages_from call forks
  stages_from-forks input cmd [] s p h =
      IfDone-mono _ _ (last_stage os rounds home shows stray input cmd s) (λ _ t e. omega arith)
        (last_stage-forks input cmd s p)
  stages_from-forks input cmd (next ∷ cmds) s p h =
      let read_end = os.reply (pipe ∷ s.calls) in
      let write_end = os.reply (pipe ∷ pipe ∷ s.calls) in
      let piped = record s { calls = pipe ∷ pipe ∷ s.calls } in
      let start = record piped {
        list = get_elem? cmd;
        calls = close write_end ∷ fork ∷ piped.calls;
      } in
      rw (execute_command-parent input write_end cmd piped p h.0) (
        IfDone-mono _ _ (stages_from os rounds home shows stray read_end next cmds start)
          (λ _ t e. omega (arith, e, forks-fork os (pipe ∷ pipe ∷ s.calls) p))
          (stages_from-forks read_end next cmds start p h.1))

  last_stage-returns :
      (input : ℤ) (cmd : List Text) (s : Shell)
      → IsParent os
      → IsPatient os rounds
      → returns (last_stage os rounds home shows stray input cmd s) ≡ true
  unfolding last_stage call
  last_stage-returns input cmd s p patient = elim (Bool-cases (eq_ℤ input (pos 0))) [
    | inl e ↦ rw (e, parent-not_child os s.calls p) (wait_until_ended-returns os rounds _ _ patient)
    | inr e ↦
        rw (e, parent-not_child os (dup2 input (pos 0) ∷ s.calls) p)
          (wait_until_ended-returns os rounds _ _ patient)
  ]

  stages_from-returns :
      (input : ℤ) (cmd : List Text) (cmds : List (List Text)) (s : Shell)
      → IsParent os
      → IsPatient os rounds
      → Each IsStage (cmd ∷ cmds)
      → returns (stages_from os rounds home shows stray input cmd cmds s) ≡ true
  unfolding stages_from call
  stages_from-returns input cmd [] s p patient h = last_stage-returns input cmd s p patient
  stages_from-returns input cmd (next ∷ cmds) s p patient h =
      let write_end = os.reply (pipe ∷ pipe ∷ s.calls) in
      rw
        (execute_command-parent input write_end cmd (record s { calls = pipe ∷ pipe ∷ s.calls }) p
          h.0)
        (stages_from-returns (os.reply (pipe ∷ s.calls)) next cmds
          (record s {
            list = get_elem? cmd;
            calls = close write_end ∷ fork ∷ pipe ∷ pipe ∷ s.calls;
          })
          p patient h.1)

  -- In the shell itself, a pipeline in which `chkInpt` takes no command for `ls` comes to its end
  -- and has started one process for each command, where every child is seen to have ended within
  -- the rounds of waiting.
  pub fork_pipes-forks :
      (cmds : List (List Text)) (s : Shell)
      → IsParent os
      → IsPatient os rounds
      → Each IsStage cmds
      → (returns (fork_pipes os rounds home shows stray cmds s) ≡ true)
        × IfDone
            (λ _ t. forks os t.calls ≡ length cmds + forks os s.calls)
            (fork_pipes os rounds home shows stray cmds s)
  unfolding fork_pipes
  fork_pipes-forks [] s p patient h = (refl, omega arith)
  fork_pipes-forks (cmd ∷ cmds) s p patient h =
      (stages_from-returns (pos 0) cmd cmds s p patient h, stages_from-forks (pos 0) cmd cmds s p h)
