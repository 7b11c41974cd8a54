-- ===== src/Shell/Jobs.antt =====
-- Assignment3/wonderShell/wonderShell.c: the list of background jobs, `ThisJobs`.
--
-- The linked list is a list. Where the code follows a null pointer the shell dies, and the model
-- returns `none`. Messages on the way (" found") are left out, and so is the variable
-- `foreground`, which nothing reads.
pub mod Laws
use mathlib.Core.Option
use osassignments.Common.{
  ℕ, zero, suc, ◌+◌, Bool, true, false, Option, none, some, List, [], ◌∷◌, ◌++◌, if◌then◌else◌,
  ◌==◌,
}
use osassignments.Common.Int.{ℤ, pos, negsuc, eq_ℤ}
use osassignments.Shell.Text.{Text, text}

-- The constants that `status` points to; `unset` is a pointer that was never assigned.
pub data Status : Type 0 where
  running sleeping zombie stopped unset : Status

pub record Job : Type 0 where
  pub job_name : Text
  pub pid : ℤ
  pub status : Status

-- `strcmp(status, "Running") == 0`
abbrev pub is_running : Status → Bool
is_running running = true
is_running _ = false

unfoldable pub add_job : Status → ℤ → Text → List Job → List Job
add_job stat pid name [] = record { job_name = name; pid = pid; status = stat } ∷ []
add_job stat pid name (j ∷ jobs) = j ∷ add_job stat pid name jobs

-- The loop of `delete_job`. It reads `temp->pid` before it compares `temp` to NULL.
unfoldable pub delete_after : ℤ → List Job → Option (List Job)
delete_after pid [] = none
delete_after pid (temp ∷ jobs) =
    if eq_ℤ temp.pid pid then some jobs else Option.map (◌∷◌ temp) (delete_after pid jobs)

unfoldable pub delete_job : ℤ → List Job → Option (List Job)
unfolding delete_after
delete_job pid [] = some []
delete_job pid (j ∷ jobs) =
    if eq_ℤ j.pid pid then some jobs else Option.map (◌∷◌ j) (delete_after pid jobs)

-- `for (; temp->next != NULL; temp = temp->next);`, from the head `j`: the last job.
unfoldable pub last_job : Job → List Job → Job
last_job j [] = j
last_job j (k ∷ jobs) = last_job k jobs

-- The loops of `search_job`, `change_to_running` and `is_job_running` end in a semicolon: what
-- looks like their body runs once, for the last job.
unfoldable pub search_job : ℤ → List Job → Bool
unfolding last_job
search_job pid [] = false
search_job pid (j ∷ jobs) = if eq_ℤ j.pid pid then true else eq_ℤ (last_job j jobs).pid pid

-- It sets the status of the first job, also where the last one has the number.
unfoldable pub change_to_running : ℤ → List Job → Bool × List Job
unfolding last_job
change_to_running pid [] = (false, [])
change_to_running pid (j ∷ jobs) =
    let stop = record j { status = stopped } ∷ jobs in
    if eq_ℤ j.pid pid
    then (true, stop)
    else if eq_ℤ (last_job j jobs).pid pid
    then (true, stop)
    else (false, j ∷ jobs)

-- Both tests are of the first job; the number is not used.
unfoldable pub is_job_running : ℤ → List Job → Bool
is_job_running pid [] = false
is_job_running pid (j ∷ jobs) = is_running j.status

-- The loop of `get_job_pid` with `rounds` left, and the `temp->pid` behind it.
unfoldable pub nth_pid : ℕ → List Job → Option ℤ
nth_pid zero [] = none
nth_pid zero (j ∷ jobs) = some j.pid
nth_pid (suc rounds) [] = some (negsuc 0)
nth_pid (suc rounds) (j ∷ jobs) = nth_pid rounds jobs

-- A number below 1 gives no rounds.
unfoldable pub get_job_pid : ℤ → List Job → Option ℤ
unfolding nth_pid
get_job_pid number [] = some (pos 0)
get_job_pid (negsuc n) (j ∷ jobs) = some j.pid
get_job_pid (pos number) (j ∷ jobs) = if number == 1 then some j.pid else nth_pid number (j ∷ jobs)

unfoldable pub nth_name : ℕ → List Job → Option Text
nth_name zero [] = none
nth_name zero (j ∷ jobs) = some j.job_name
nth_name (suc rounds) [] = some []
nth_name (suc rounds) (j ∷ jobs) = nth_name rounds jobs

-- The name is the first member of a job, so the code returns a null pointer where `get_job_pid`
-- would follow one: `none` again. With no jobs at all `get_job_pid` is careful, and this is not.
unfoldable pub get_job_name : ℤ → List Job → Option Text
unfolding nth_name
get_job_name (negsuc n) jobs = nth_name 0 jobs
get_job_name (pos number) [] = nth_name number []
get_job_name (pos number) (j ∷ jobs) =
    if number == 1 then some j.job_name else nth_name number (j ∷ jobs)

-- The status for the letter of `/proc/<pid>/stat`. For any other letter the variable
-- `process_status` was never assigned.
unfoldable pub status_of : ℕ → Status
status_of c =
    if c == b'R'
    then running
    else if c == b'S'
    then sleeping
    else if c == b'Z'
    then zombie
    else unset

-- `proc` says what the file of a process holds, `none` where it cannot be opened: the rest of the
-- list is then left alone.
unfoldable pub update_job_status : (ℤ → Option ℕ) → List Job → List Job
unfolding status_of
update_job_status proc [] = []
update_job_status proc (j ∷ jobs) = elim (proc j.pid) [
  | none ↦ j ∷ jobs
  | some stat ↦ record j { status = status_of stat } ∷ update_job_status proc jobs
]

-- What `jobs` prints: each job with its number, from 1 on.
unfoldable pub list_from : ℕ → List Job → List (ℕ × Job)
list_from i [] = []
list_from i (j ∷ jobs) = (i, j) ∷ list_from (suc i) jobs

unfoldable pub jobs_pressed : List Job → List (ℕ × Job)
unfolding list_from
jobs_pressed jobs = list_from 1 jobs
