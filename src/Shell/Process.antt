-- ===== src/Shell/Process.antt =====
-- Assignment3/wonderShell/wonderShell.c: the shell as a process, and the processes that it starts.
--
-- An action takes the shell to an outcome. What the operating system answers is a function of the
-- calls made so far, the newest in front. Messages of fixed text are left out. The arguments of a
-- command are an array of pointers that all the functions share, `none` where one is NULL; an
-- index behind the words gives whatever the array held before.
pub mod Laws
use osassignments.Common.{
  ℕ, zero, suc, ◌-◌, Bool, true, false, ◌&&◌, ◌||◌, Option, none, some, List, [], ◌∷◌,
  if◌then◌else◌, ◌==◌,
}
use osassignments.Common.Int.{ℤ, pos, negsuc, eq_ℤ, ltb_ℤ}
use osassignments.Shell.Text.{Text, text, same_text}
use osassignments.Shell.Display.{Display}
use osassignments.Shell.Jobs.{Job, add_job, delete_job, status_of}
use osassignments.Shell.Reminder.{Alarm}

pub data Signal : Type 0 where
  sigttin sigcont sigquit : Signal
  number : ℤ → Signal

-- The calls of the operating system, and the lines that the shell prints from its data.
pub data Call : Type 0 where
  fork pipe getcwd time open_tty open_tty_in : Call
  execvp chdir : Option Text → Call
  waitpid waitpid_nohang close read_stat : ℤ → Call
  kill : ℤ → Signal → Call
  open_in unsetenv : Option Text → Call
  open_out : Bool → Option Text → Call
  setenv : Option Text → Option Text → Call
  dup : ℤ → Call
  dup2 : ℤ → ℤ → Call
  listed : List (ℕ × Job) → Call
  reminded : List Text → Call
  echoed : List (Option Text) → Call
  displayed : Display → Call

-- `ended` is the test `WIFEXITED(status) || WIFSIGNALED(status)` after a wait, and `letter` the
-- state that `/proc/<pid>/stat` shows, `none` where it cannot be opened.
pub record Os : Type 0 where
  pub reply : List Call → ℤ
  pub ended : List Call → Bool
  pub letter : List Call → Option ℕ

-- `list` and the variables `ThisJobs`, `Childpid` and those of the alarm.
pub record Shell : Type 0 where
  pub list : ℕ → Option Text
  pub this_jobs : List Job
  pub child_pid : ℤ
  pub alarm : Alarm
  pub calls : List Call

-- `crashed`: it followed a null pointer. `gone`: it called exit, or became another program.
-- `waiting`: it still waits for a child after all the rounds that it was given.
pub data Outcome (A : Type 0) : Type 0 where
  done : A → Shell → Outcome A
  crashed gone waiting : Shell → Outcome A

abbrev pub M : Type 0 → Type 0
M A = Shell → Outcome A

abbrev pub pure : {A : Type 0} → A → M A
pure a s = done a s

abbrev pub follow : {A B : Type 0} → Outcome A → (A → M B) → Outcome B
follow (done a s) f = f a s
follow (crashed s) f = crashed s
follow (gone s) f = gone s
follow (waiting s) f = waiting s

infixl 5 ◌>>=◌ ◌>>◌
abbrev pub ◌>>=◌ : {A B : Type 0} → M A → (A → M B) → M B
◌>>=◌ m f s = follow (m s) f

abbrev pub ◌>>◌ : {A B : Type 0} → M A → M B → M B
m >> k = m >>= λ _. k

abbrev pub crash : {A : Type 0} → M A
crash s = crashed s

abbrev pub leave : {A : Type 0} → M A
leave s = gone s

-- `list[i]`, also where it is NULL.
abbrev pub arg : ℕ → M (Option Text)
arg i s = done (s.list i) s

abbrev pub set_null : ℕ → M Unit
set_null i s = done tt (record s { list = λ j. if i == j then none else s.list j })

-- `strcmp(list[i], word) == 0`
unfoldable pub arg_is : ℕ → Text → M Bool
arg_is i word s = elim (s.list i) [ none ↦ crashed s | some w ↦ done (same_text w word) s ]

abbrev pub set_child_pid : ℤ → M Unit
set_child_pid pid s = done tt (record s { child_pid = pid })

abbrev pub set_jobs : List Job → M Unit
set_jobs jobs s = done tt (record s { this_jobs = jobs })

-- `delete_job(a)`, which may die.
unfoldable pub drop_job : ℤ → M Unit
drop_job a s = elim (delete_job a s.this_jobs) [
  | none ↦ crashed s
  | some jobs ↦ done tt (record s { this_jobs = jobs })
]

-- `add_job(stat, pid, line[0])`, whose `strcpy` dies for a null pointer.
unfoldable pub enter_job : ℕ → ℤ → M Unit
enter_job c pid s = elim (s.list 0) [
  | none ↦ crashed s
  | some name ↦ done tt (record s { this_jobs = add_job (status_of c) pid name s.this_jobs })
]

module _ (os : Os) where
  unfoldable pub call : Call → M ℤ
  call c s = let calls = c ∷ s.calls in done (os.reply calls) (record s { calls = calls })

  unfoldable pub wait : ℤ → M Bool
  wait pid s =
      let calls = waitpid pid ∷ s.calls in done (os.ended calls) (record s { calls = calls })

  unfoldable pub letter_of : ℤ → M (Option ℕ)
  letter_of pid s =
      let calls = read_stat pid ∷ s.calls in done (os.letter calls) (record s { calls = calls })

  -- `do waitpid(pid, ...); while (!WIFEXITED(status) && !WIFSIGNALED(status));`
  unfoldable pub wait_until_ended : ℕ → ℤ → M Unit
  unfolding wait
  wait_until_ended zero pid = waiting
  wait_until_ended (suc rounds) pid = do
    over ← wait pid
    if over then pure tt else wait_until_ended rounds pid

  unfoldable pub check_child : M Unit
  unfolding call drop_job
  check_child = do
    a ← call (waitpid_nohang (negsuc 0))
    if ltb_ℤ (pos 0) a then drop_job a else pure tt

  -- What both kinds of process do in the child: `execvp` does not return, or fails and the child
  -- calls exit.
  unfoldable pub run_child : M Unit
  unfolding call
  run_child = do name ← arg 0; call (execvp name); leave

  unfoldable pub fore_ground_process : ℕ → ℕ → M Unit
  unfolding call run_child wait_until_ended
  fore_ground_process rounds len = do
    set_null len
    pid ← call fork
    set_child_pid pid
    if eq_ℤ pid (pos 0)
        then run_child
        else if ltb_ℤ pid (pos 0)
        then pure tt
        else wait_until_ended rounds pid

  unfoldable pub note_job : ℤ → Option ℕ → M Unit
  unfolding enter_job
  note_job pid none = pure tt
  note_job pid (some c) = enter_job c pid

  unfoldable pub back_ground_process : ℕ → M Unit
  unfolding call run_child letter_of note_job
  back_ground_process len = do
    set_null len
    pid ← call fork
    set_child_pid pid
    if eq_ℤ pid (pos 0) then run_child else (letter_of pid >>= note_job pid)

  -- For a command with at least one word.
  unfoldable pub switch_fore_or_back_ground : ℕ → ℕ → M Unit
  unfolding arg_is fore_ground_process back_ground_process
  switch_fore_or_back_ground rounds len = do
    back ← arg_is (len - 1) (text "&")
    if back
        then (set_null (len - 1) >> back_ground_process (len - 1))
        else fore_ground_process rounds len
