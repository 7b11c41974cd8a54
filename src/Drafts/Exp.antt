-- ===== src/Drafts/Exp.antt =====
-- Assignment3/wonderShell/exp.c: `outputFileAt`, `chkFile` and `ctrlC`.
--
-- Its `inputFileFrom` is that of wonderShell.c. The test `outredireted = 1` at the end of `chkFile` is an
-- assignment, so the terminal is opened in any case.
use osassignments.Common.{ℕ, suc, Bool, not, ◌&&◌, Option, none, some, if◌then◌else◌}
use osassignments.Common.Int.{ℤ, pos, eq_ℤ, ltb_ℤ}
use osassignments.Shell.Text.{Text}
use osassignments.Shell.Jobs.{search_job}
use osassignments.Shell.Process.{
  M, Os, ◌>>=◌, ◌>>◌, arg, call, close, dup2, kill, number, open_out, open_tty, open_tty_in, pure,
}
use osassignments.Shell.Signals.{sigint}
use osassignments.Shell.Dispatch.{Show, execute_inbuild}
use osassignments.Shell.Redirect.{input_file_from}
use osassignments.Drafts.Scan.{Found, nothing_found, scan}

module _ (os : Os) (rounds : ℕ) (home : Text) (shows : Show → ℕ → M Unit) where
  -- It only moves the output to the file.
  unfoldable pub output_file_at : ℕ → Bool → M Unit
  unfolding call
  output_file_at n append = do
    name ← arg (suc n)
    target ← call os (open_out append name)
    if ltb_ℤ target (pos 0) then pure tt else do
      moved ← call os (dup2 target (pos 1))
      if eq_ℤ moved (pos 1) then (call os (close target) >> pure tt) else pure tt

  unfoldable pub run_found : ℕ → Option Found → M Unit
  unfolding call execute_inbuild
  run_found len none = pure tt
  run_found len (some found) = do
    execute_inbuild os rounds home shows len
    if found.in_redirected then (call os open_tty_in >> pure tt) else pure tt
    call os open_tty
    pure tt

  unfoldable pub chk_file : ℕ → M Unit
  unfolding scan input_file_from output_file_at run_found
  chk_file len = do
    found ← scan (input_file_from os rounds home shows len) output_file_at len len 0 nothing_found
    run_found len found

-- With the number of the process that gets the signal.
unfoldable pub ctrl_c : Os → ℤ → ℤ → M Unit
unfolding call search_job
ctrl_c os shell_pid pid s =
    (if eq_ℤ pid shell_pid && not (eq_ℤ pid (pos 0)) && not (search_job pid s.this_jobs)
        then (call os (kill s.child_pid (number sigint)) >> pure tt)
        else pure tt)
      s
