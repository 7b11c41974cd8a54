-- ===== src/Shell/Signals.antt =====
-- Assignment3/wonderShell/wonderShell.c: the handlers of Ctrl-C and Ctrl-Z.
--
-- `is_shell` is the test `getpid() == shell_pid`: a child that has not become another program yet
-- has the handlers as well. Setting the handler again is left out.
use osassignments.Common.{
  ℕ, zero, suc, ◌≡◌, ◌≢◌, ◌<◌, refl, Bool, true, false, ◌||◌, not, Option, none, some, List, [],
  ◌∷◌, if◌then◌else◌, arith, length,
}
use osassignments.Common.Int.{ℤ, pos, eq_ℤ, eq_of_parts}
use osassignments.Shell.Text.{Text}
use osassignments.Shell.Jobs.{Job, stopped, add_job, get_job_name, nth_name}
use osassignments.Shell.Process.{M, Os, Shell, ◌>>◌, call, crash, done, kill, number, pure, sigttin}

-- The numbers of SIGINT and SIGTSTP.
abbrev pub sigint : ℤ
sigint = pos 2

abbrev pub sigtstp : ℤ
sigtstp = pos 20

module _ (os : Os) (is_shell : Bool) where
  unfoldable pub ctrl_c : M Unit
  unfolding call
  ctrl_c s =
      (if not is_shell || eq_ℤ s.child_pid (pos 0)
          then pure tt
          else (call os (kill s.child_pid (number sigint)) >> pure tt))
        s

  -- `add_job("Stopped", Childpid, name)`, which dies for a null pointer.
  unfoldable pub stop_job : Option Text → M Unit
  unfolding call
  stop_job none = crash
  stop_job (some name) = do
    (λ s. done tt (record s { this_jobs = add_job stopped s.child_pid name s.this_jobs }))
    (λ s. call os (kill s.child_pid sigttin) s)
    (λ s. call os (kill s.child_pid (number sigtstp)) s)
    pure tt

  unfoldable pub ctrl_z : ℤ → M Unit
  unfolding stop_job
  ctrl_z shell_pid s =
      (if not is_shell || eq_ℤ s.child_pid shell_pid || eq_ℤ s.child_pid (pos 0)
          then pure tt
          else stop_job (get_job_name s.child_pid s.this_jobs))
        s

nth_name-past : (n : ℕ) (jobs : List Job) → length jobs < n → nth_name n jobs ≡ some []
unfolding nth_name
nth_name-past zero jobs h = absurd (omega arith)
nth_name-past (suc n) [] h = refl
nth_name-past (suc n) (j ∷ jobs) h = nth_name-past n jobs (omega arith)

get_job_name-past :
    (n : ℕ) (jobs : List Job) → length jobs < n → get_job_name (pos n) jobs ≡ some []
unfolding get_job_name
get_job_name-past n [] h = nth_name-past n [] h
get_job_name-past n (j ∷ jobs) h = ground (arith, nth_name-past n (j ∷ jobs))

not_shell : (a b : ℤ) → a ≢ b → eq_ℤ a b ≡ false
not_shell a b h = ground (arith, eq_of_parts a b, h)

-- Ctrl-Z in the shell, on a child other than the shell whose process number is positive and greater
-- than the number of jobs: the child is entered among the jobs, stopped and with an empty name, and is
-- sent SIGTTIN and then SIGTSTP.
pub ctrl_z-empty_name :
    (os : Os) (shell_pid : ℤ) (n : ℕ) (s : Shell)
    → s.child_pid ≡ pos (suc n)
    → pos (suc n) ≢ shell_pid
    → length s.this_jobs < suc n
    → ctrl_z os true shell_pid s
      ≡ done tt (record s {
        this_jobs = add_job stopped (pos (suc n)) [] s.this_jobs;
        calls = kill (pos (suc n)) (number sigtstp) ∷ kill (pos (suc n)) sigttin ∷ s.calls;
      })
unfolding ctrl_z stop_job call
ctrl_z-empty_name os shell_pid n s child other past = simp (
  child,
  not_shell (pos (suc n)) shell_pid other,
  not_shell (pos (suc n)) (pos 0) (λ e. cc),
  get_job_name-past (suc n) s.this_jobs past,
)
