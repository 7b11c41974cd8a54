-- ===== src/Shell/Jobs/Laws.antt =====
-- Assignment3/wonderShell/wonderShell.c: what holds of the list of background jobs.
use osassignments.Common.{
  ℕ, zero, suc, ◌≤◌, ◌≡◌, ◌≢◌, refl, Bool, true, false, ◌||◌, none, some, List, [], ◌∷◌, ◌++◌,
  if◌then◌else◌, arith, get_elem?, length,
}
use osassignments.Common.Int.{ℤ, pos, eq_ℤ}
use osassignments.Shell.Text.{Text}
use osassignments.Shell.Jobs.{
  Job, Status, add_job, delete_after, delete_job, last_job, search_job, nth_pid, get_job_pid,
  list_from, jobs_pressed,
}

-- Some job has the number.
unfoldable pub has_pid : ℤ → List Job → Bool
has_pid pid [] = false
has_pid pid (j ∷ jobs) = eq_ℤ j.pid pid || has_pid pid jobs

-- The list without the first job that has the number.
unfoldable pub without_job : ℤ → List Job → List Job
without_job pid [] = []
without_job pid (j ∷ jobs) = if eq_ℤ j.pid pid then jobs else j ∷ without_job pid jobs

delete_after_lem :
    (pid : ℤ) (jobs : List Job)
    → delete_after pid jobs ≡ (if has_pid pid jobs then some (without_job pid jobs) else none)
unfolding delete_after has_pid without_job
delete_after_lem pid [] = refl
delete_after_lem pid (j ∷ jobs) = ground (arith, delete_after_lem pid jobs)

-- Where a job has the number, the first such job is taken out and the others stay in their order.
-- With no jobs nothing happens. Where there are jobs and none has the number, the shell dies.
pub delete_job_lem :
    (pid : ℤ) (jobs : List Job)
    → (has_pid pid jobs ≡ true → delete_job pid jobs ≡ some (without_job pid jobs))
      × (delete_job pid [] ≡ some [])
      × (jobs ≢ [] → has_pid pid jobs ≡ false → delete_job pid jobs ≡ none)
unfolding delete_job has_pid without_job
delete_job_lem pid [] = (λ h. refl, refl, λ h. absurd (h refl))
delete_job_lem pid (j ∷ jobs) = (
  ground (arith, delete_after_lem pid jobs),
  refl,
  λ h. ground (arith, delete_after_lem pid jobs),
)

delete_after-add_job :
    (stat : Status) (pid : ℤ) (name : Text) (jobs : List Job)
    → has_pid pid jobs ≡ false
    → delete_after pid (add_job stat pid name jobs) ≡ some jobs
unfolding delete_after add_job has_pid
delete_after-add_job stat pid name [] h = ground arith
delete_after-add_job stat pid name (j ∷ jobs) h =
    ground (arith, delete_after-add_job stat pid name jobs)

-- A job that is added under a new number and deleted again leaves the list as it was.
delete_job-add_job :
    (stat : Status) (pid : ℤ) (name : Text) (jobs : List Job)
    → has_pid pid jobs ≡ false
    → delete_job pid (add_job stat pid name jobs) ≡ some jobs
unfolding delete_job add_job has_pid
delete_job-add_job stat pid name [] h = ground arith
delete_job-add_job stat pid name (j ∷ jobs) h =
    ground (arith, delete_after-add_job stat pid name jobs)

last_job-append : (j k : Job) (jobs : List Job) → last_job j (jobs ++ k ∷ []) ≡ k
unfolding last_job
last_job-append j k [] = refl
last_job-append j k (i ∷ jobs) = last_job-append i k jobs

-- Of a list with at least two jobs `search_job` finds the first and the last, and no other.
search_job_ends :
    (pid : ℤ) (first last : Job) (middle : List Job)
    → search_job pid (first ∷ (middle ++ last ∷ [])) ≡ (eq_ℤ first.pid pid || eq_ℤ last.pid pid)
unfolding search_job
search_job_ends pid first last middle = rw (last_job-append first last middle) (ground arith)

nth_pid-list_from :
    (i n m : ℕ) (jobs : List Job) (j : Job)
    → get_elem? (list_from i jobs) n ≡ some (m, j)
    → nth_pid n jobs ≡ some j.pid
unfolding nth_pid list_from
nth_pid-list_from i zero m [] j h = cc
nth_pid-list_from i (suc n) m [] j h = cc
nth_pid-list_from i zero m (k ∷ jobs) j h = ground arith
nth_pid-list_from i (suc n) m (k ∷ jobs) j h = nth_pid-list_from (suc i) n m jobs j h

nth_pid-length : (jobs : List Job) → nth_pid (length jobs) jobs ≡ none
unfolding nth_pid
nth_pid-length [] = refl
nth_pid-length (j ∷ jobs) = nth_pid-length jobs

-- What `jobs` prints under the number `n + 1` is the job that `get_job_pid` gives for `n`, for
-- every `n` from 2 on; and where `n` is the number of jobs, the shell dies.
get_job_pid_off_by_one :
    (n : ℕ) (jobs : List Job)
    → 2 ≤ n
    → ((j : Job)
        → get_elem? (jobs_pressed jobs) n ≡ some (suc n, j)
        → get_job_pid (pos n) jobs ≡ some j.pid)
      × (n ≡ length jobs → get_job_pid (pos n) jobs ≡ none)
unfolding get_job_pid jobs_pressed
get_job_pid_off_by_one n [] h = (λ j e. cc, λ e. absurd (omega arith))
get_job_pid_off_by_one n (k ∷ jobs) h = (
  λ j e. ground (arith, nth_pid-list_from 1 n (suc n) (k ∷ jobs) j),
  λ e. ground (arith, nth_pid-length (k ∷ jobs)),
)
