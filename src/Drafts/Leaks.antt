-- ===== src/Drafts/Leaks.antt =====
-- Assignment3/wonderShell/wonder.c: the descriptors that a pipeline leaves open in the shell.
use osassignments.Common.{
  ℕ, ◌+◌, ◌*◌, ◌≡◌, Bool-cases, false, inl, inr, refl, true, some, List, [], ◌∷◌, arith, length,
  get_elem?,
}
use osassignments.Common.Int.{ℤ, pos, eq_ℤ, ltb_ℤ}
use osassignments.Shell.Text.{Text, text}
use osassignments.Shell.Process.{Call, M, Os, Shell, call, close, dup2, fork, open_out, pipe}
use osassignments.Shell.Process.Laws.{IfDone, IfDone-mono}
use osassignments.Shell.Redirect.Laws.{returns}
use osassignments.Shell.Pipeline.Laws.{
  IsParent, IsPatient, parent-not_child, wait_until_ended-returns,
}
use osassignments.Shell.Pipeline.Descriptors.{
  is_open, open_fds, with_opened, without, without-opened, Leaks, PipesAbove,
  wait_until_ended-Leaks,
}
use osassignments.Drafts.Errlog.{execute_command, fork_pipes, last_stage, stages_from}

-- `open` on the file `errlog` succeeds, and gives a number above 2 that is not in use.
abbrev pub LogsAbove : Os → Type 0
LogsAbove os =
    (calls : List Call)
    → let opening = open_out true (some (text "errlog")) ∷ calls in
      (ltb_ℤ (pos 2) (os.reply opening) ≡ true)
      × (is_open (os.reply opening) (open_fds os calls) ≡ false)

-- Two descriptors are opened and stay open, where the one between them is closed.
opened-closed :
    (r w l : ℤ) (fds : List ℤ)
    → ltb_ℤ (pos 2) r ≡ true
    → (ltb_ℤ (pos 2) w ≡ true) × (is_open w (with_opened r fds) ≡ false)
    → (ltb_ℤ (pos 2) l ≡ true) × (is_open l (with_opened w (with_opened r fds)) ≡ false)
    → length (without w (with_opened l (with_opened w (with_opened r fds)))) ≡ 2 + length fds
unfolding with_opened without
opened-closed r w l fds hr (hw, kw) (hl, kl) =
    let kw : is_open w (r ∷ fds) ≡ false = ground (arith, kw, hr) in
    let kl : is_open l (w ∷ r ∷ fds) ≡ false = ground (arith, kl, hr, hw) in
    let apart : eq_ℤ w l ≡ false = ground (arith, kl) in
    let rest = without-opened w (r ∷ fds) kw in rw (hl, hw, hr, apart, rest) (omega arith)

module _ (os : Os) (rounds : ℕ) (chk : ℕ → M Unit) (parent : IsParent os) where
  abbrev errlog_opened : List Call → List Call
  errlog_opened calls = open_out true (some (text "errlog")) ∷ calls

  -- The state behind the first stage of several.
  abbrev behind_stage : List Text → Shell → Shell
  behind_stage cmd s =
      let piped = pipe ∷ pipe ∷ s.calls in
      let logged = dup2 (os.reply (errlog_opened piped)) (pos 2) ∷ errlog_opened piped in
      record s { list = get_elem? cmd; calls = close (os.reply piped) ∷ fork ∷ logged }

  stages_from-next :
      (input : ℤ) (cmd next : List Text) (cmds : List (List Text)) (s : Shell)
      → stages_from os rounds chk input cmd (next ∷ cmds) s
        ≡ stages_from os rounds chk (os.reply (pipe ∷ s.calls)) next cmds (behind_stage cmd s)
  unfolding stages_from execute_command call
  stages_from-next input cmd next cmds s =
      let piped = pipe ∷ pipe ∷ s.calls in
      rw
        (parent-not_child os (dup2 (os.reply (errlog_opened piped)) (pos 2) ∷ errlog_opened piped)
          parent)
        refl

  last_stage-Leaks :
      (input : ℤ) (cmd : List Text) (s : Shell)
      → IfDone (Leaks os 0 s) (last_stage os rounds chk input cmd s)
  unfolding last_stage call open_fds
  last_stage-Leaks input cmd s = elim (Bool-cases (eq_ℤ input (pos 0))) [
    | inl e ↦
        rw (e, parent-not_child os s.calls parent)
          (wait_until_ended-Leaks os rounds (os.reply (fork ∷ s.calls))
            (record s { list = get_elem? cmd; calls = fork ∷ s.calls }))
    | inr e ↦
        let moved = dup2 input (pos 0) ∷ s.calls in
        rw (e, parent-not_child os moved parent)
          (wait_until_ended-Leaks os rounds (os.reply (fork ∷ moved))
            (record s { list = get_elem? cmd; calls = fork ∷ moved }))
  ]

  -- The stage leaves the end to read and `errlog` open.
  behind_stage-Leaks :
      (cmd : List Text) (s : Shell)
      → PipesAbove os
      → LogsAbove os
      → Leaks os 2 s tt (behind_stage cmd s)
  unfolding open_fds
  behind_stage-Leaks cmd s pipes logs =
      let piped = pipe ∷ pipe ∷ s.calls in
      opened-closed (os.reply (pipe ∷ s.calls)) (os.reply piped) (os.reply (errlog_opened piped))
        (open_fds os s.calls) (pipes s.calls).0 (pipes (pipe ∷ s.calls)) (logs piped)

  stages_from-Leaks :
      (input : ℤ) (cmd : List Text) (cmds : List (List Text)) (s : Shell)
      → PipesAbove os
      → LogsAbove os
      → IfDone (Leaks os (2 * length cmds) s) (stages_from os rounds chk input cmd cmds s)
  unfolding stages_from
  stages_from-Leaks input cmd [] s pipes logs = last_stage-Leaks input cmd s
  stages_from-Leaks input cmd (next ∷ cmds) s pipes logs =
      let read_end = os.reply (pipe ∷ s.calls) in
      let start = behind_stage cmd s in
      rw (stages_from-next input cmd next cmds s) (
        IfDone-mono _ _ (stages_from os rounds chk read_end next cmds start)
          (λ _ t e. omega (arith, e, behind_stage-Leaks cmd s pipes logs))
          (stages_from-Leaks read_end next cmds start pipes logs))

  last_stage-returns :
      (input : ℤ) (cmd : List Text) (s : Shell)
      → IsPatient os rounds
      → returns (last_stage os rounds chk input cmd s) ≡ true
  unfolding last_stage call
  last_stage-returns input cmd s patient = elim (Bool-cases (eq_ℤ input (pos 0))) [
    | inl e ↦
        rw (e, parent-not_child os s.calls parent) (wait_until_ended-returns os rounds _ _ patient)
    | inr e ↦
        rw (e, parent-not_child os (dup2 input (pos 0) ∷ s.calls) parent)
          (wait_until_ended-returns os rounds _ _ patient)
  ]

  stages_from-returns :
      (input : ℤ) (cmd : List Text) (cmds : List (List Text)) (s : Shell)
      → IsPatient os rounds
      → returns (stages_from os rounds chk input cmd cmds s) ≡ true
  unfolding stages_from
  stages_from-returns input cmd [] s patient = last_stage-returns input cmd s patient
  stages_from-returns input cmd (next ∷ cmds) s patient =
      rw (stages_from-next input cmd next cmds s)
        (stages_from-returns (os.reply (pipe ∷ s.calls)) next cmds (behind_stage cmd s) patient)

  -- In wonder.c a pipeline comes to its end in the shell, where every `fork` succeeds, each pipe and
  -- the file `errlog` get numbers above 2 that are not in use, and every child is seen to have ended
  -- within the rounds of waiting. It leaves two descriptors open in the shell for each pipe: the
  -- end to read, and the file `errlog` once more.
  pub fork_pipes-Leaks :
      (cmd : List Text) (cmds : List (List Text)) (s : Shell)
      → PipesAbove os
      → LogsAbove os
      → IsPatient os rounds
      → let o = fork_pipes os rounds chk (cmd ∷ cmds) s in
        (returns o ≡ true)
        × IfDone
            (λ _ t. length (open_fds os t.calls) ≡ 2 * length cmds + length (open_fds os s.calls))
            o
  unfolding fork_pipes
  fork_pipes-Leaks cmd cmds s pipes logs patient = (
    stages_from-returns (pos 0) cmd cmds s patient,
    stages_from-Leaks (pos 0) cmd cmds s pipes logs,
  )
