-- ===== src/Shell/Inbuild.antt =====
-- Assignment3/wonderShell/wonderShell.c: the commands that the shell runs itself on its jobs and
-- its environment.
use osassignments.Common.{ℕ, zero, suc, Option, none, some, List, [], ◌∷◌, if◌then◌else◌, ◌==◌}
use osassignments.Common.Int.{ℤ, negsuc, eq_ℤ}
use osassignments.Shell.Text.{Text}
use osassignments.Shell.Number.{strtol}
use osassignments.Shell.Jobs.{Job, change_to_running, get_job_pid, is_job_running, search_job}
use osassignments.Shell.Process.{
  M, Os, ◌>>=◌, ◌>>◌, arg, call, crashed, kill, number, pure, set_jobs, setenv, sigcont, sigquit,
  sigttin, unsetenv, wait_until_ended,
}

-- The `count` arguments from `i` on.
unfoldable pub args_from : ℕ → ℕ → (ℕ → Option Text) → List (Option Text)
args_from i zero list = []
args_from i (suc count) list = list i ∷ args_from (suc i) count list

-- They as texts, where none is NULL.
unfoldable pub words_of : List (Option Text) → Option (List Text)
words_of [] = some []
words_of (none ∷ args) = none
words_of (some w ∷ args) = elim (words_of args) [ none ↦ none | some ws ↦ some (w ∷ ws) ]

module _ (os : Os) (rounds : ℕ) where
  unfoldable pub fg_at : Option Text → M Unit
  fg_at none = pure tt
  fg_at (some t) = wait_until_ended os rounds (strtol t)

  unfoldable pub fg_pressed : M Unit
  unfolding fg_at
  fg_pressed = arg 1 >>= fg_at

  -- Behind `search_job`: a job that was found.
  unfoldable pub bg_found : ℤ → M Unit
  unfolding call
  bg_found pid s =
      (if is_job_running pid s.this_jobs then pure tt else do
        set_jobs (change_to_running pid s.this_jobs).1
        call os (kill pid sigttin)
        call os (kill pid sigcont)
        pure tt)
        s

  unfoldable pub bg_pid : Option ℤ → M Unit
  unfolding bg_found
  bg_pid none s = crashed s
  bg_pid (some pid) s =
      (if eq_ℤ pid (negsuc 0)
          then pure tt
          else if search_job pid s.this_jobs
          then bg_found pid
          else pure tt)
        s

  unfoldable pub bg_at : Option Text → M Unit
  unfolding bg_pid
  bg_at none s = crashed s
  bg_at (some t) s = bg_pid (get_job_pid (strtol t) s.this_jobs) s

  -- A wrong number of words only gives a message.
  unfoldable pub bg_pressed : M Unit
  unfolding bg_at
  bg_pressed = arg 1 >>= bg_at

  unfoldable pub kjob_at : Option Text → Option Text → M Unit
  unfolding call
  kjob_at (some job) (some sig) = call os (kill (strtol job) (number (strtol sig))) >> pure tt
  kjob_at _ _ = pure tt

  unfoldable pub kjob_pressed : M Unit
  unfolding kjob_at
  kjob_pressed = do job ← arg 1; sig ← arg 2; kjob_at job sig

  unfoldable pub over_kill : List Job → M Unit
  unfolding call
  over_kill [] = pure tt
  over_kill (curr ∷ jobs) = call os (kill curr.pid sigquit) >> over_kill jobs

  -- No length is below 2 and above 3: every length but 2 sets the variable.
  unfoldable pub set_env_pressed : ℕ → M Unit
  unfolding call
  set_env_pressed len =
      if len == 2
      then (do var ← arg 1; call os (setenv var (some [])); pure tt)
      else (do var ← arg 1; val ← arg 2; call os (setenv var val); pure tt)

  unfoldable pub un_set_env_pressed : ℕ → M Unit
  unfolding call
  un_set_env_pressed len =
      if len == 2 then (do var ← arg 1; call os (unsetenv var); pure tt) else pure tt
