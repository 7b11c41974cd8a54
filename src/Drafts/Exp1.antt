-- ===== src/Drafts/Exp1.antt =====
-- Assignment3/wonderShell/exp1.c: `inputFileFrom` and `chkFile`, which are those of wonder.c too.
--
-- Its `outputFileAt` is that of wonderShell.c.
use osassignments.Common.{ℕ, suc, Option, none, some, if◌then◌else◌, ◌==◌}
use osassignments.Common.Int.{pos}
use osassignments.Shell.Text.{Text}
use osassignments.Shell.Process.{
  M, Os, ◌>>=◌, ◌>>◌, arg, call, close, dup2, open_in, open_tty_in, pure, set_null,
}
use osassignments.Shell.Dispatch.{Show, execute_inbuild}
use osassignments.Shell.Redirect.{output_file_at}
use osassignments.Drafts.Scan.{Found, nothing_found, scan}

module _ (os : Os) (rounds : ℕ) (home : Text) (shows : Show → ℕ → M Unit) where
  -- It runs the command with its input from the file.
  unfoldable pub input_file_from : ℕ → ℕ → M Unit
  unfolding call execute_inbuild
  input_file_from len n = if suc n == len then pure tt else do
    set_null n
    name ← arg (suc n)
    target ← call os (open_in name)
    call os (close (pos 0))
    call os (dup2 target (pos 0))
    execute_inbuild os rounds home shows len
    call os (close target)
    pure tt

  unfoldable pub run_found : ℕ → Option Found → M Unit
  unfolding call execute_inbuild
  run_found len none = pure tt
  run_found len (some found) = do
    if found.redirected then pure tt else execute_inbuild os rounds home shows len
    if found.in_redirected then (call os open_tty_in >> pure tt) else pure tt

  unfoldable pub chk_file : ℕ → M Unit
  unfolding scan input_file_from output_file_at run_found
  chk_file len = do
    found ←
        scan (input_file_from len) (output_file_at os rounds home shows len) len len 0 nothing_found
    run_found len found
