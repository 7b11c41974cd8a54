-- ===== src/Shell/Pinfo.antt =====
-- Assignment3/wonderShell/wonderShell.c: `pinfoEntered`, for the words behind the name.
--
-- The buffers for the pid and the paths are taken to be long enough.
use osassignments.Common.{ℕ, Option, none, some, List, [], ◌∷◌}
use osassignments.Shell.Text.{Text}

-- What `/proc/<pid>` tells: the state in `stat` and the size in `statm`, `none` where the file cannot
-- be opened, and the program that `exe` leads to.
pub record Procs : Type 0 where
  pub stat : Text → Option ℕ
  pub statm : Text → Option ℕ
  pub exe : Text → Text

pub record Process : Type 0 where
  pub pid : Text
  pub status : ℕ
  pub memory : ℕ
  pub exe_path : Text

-- `no_process`: only a message with the pid.
pub data Info : Type 0 where
  no_process : Text → Info
  running : Process → Info

-- `self` are the digits of `getpid()`.
unfoldable pub pid_of : Text → List Text → Text
pid_of self (pid ∷ []) = pid
pid_of self _ = self

-- Behind the opening of both files. The second test is on the first file again: without `statm`
-- `fscanf` gets a null pointer.
unfoldable pub info_at : Text → Text → Option ℕ → Option ℕ → Option Info
info_at pid exe_path none memory = some (no_process pid)
info_at pid exe_path (some status) none = none
info_at pid exe_path (some status) (some memory) =
    some (running (record { pid = pid; status = status; memory = memory; exe_path = exe_path }))

-- `none` where the shell dies.
unfoldable pub pinfo_entered : Procs → Text → List Text → Option Info
unfolding pid_of info_at
pinfo_entered procs self words =
    let pid = pid_of self words in info_at pid (procs.exe pid) (procs.stat pid) (procs.statm pid)
