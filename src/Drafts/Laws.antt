-- ===== src/Drafts/Laws.antt =====
-- Assignment3/wonderShell/exp.c, exp1.c and wonderShell.c: how often the three run a command, and what
-- becomes of a redirected `echo`.
use osassignments.Common.{ℕ, ◌≡◌, refl, Bool, some, Each, arith}
use osassignments.Shell.Text.{Text}
use osassignments.Shell.Inbuild.{args_from}
use osassignments.Shell.Process.{M, Os, Shell, ◌>>◌, call, done, open_tty, pure}
use osassignments.Shell.Dispatch.{Show, execute_inbuild}
use osassignments.Shell.Redirect
use osassignments.Shell.Redirect.{sign_at}
use osassignments.Shell.Redirect.Laws.{IsPlain, chk_file-plain}
use osassignments.Drafts.Scan.{nothing_found, scan, scan-plain}
use osassignments.Drafts.Exp
use osassignments.Drafts.Exp1

module _ (os : Os) (rounds : ℕ) (home : Text) (shows : Show → ℕ → M Unit) where
  scan-all :
      (input : ℕ → M Unit) (output : ℕ → Bool → M Unit) (len : ℕ) (s : Shell)
      → Each IsPlain (args_from 0 len s.list)
      → scan input output len len 0 nothing_found s ≡ done (some nothing_found) s
  unfolding scan
  scan-all input output len s plain =
      scan-plain input output len len 0 len 0 nothing_found s (omega arith) plain

  -- A command without a redirection runs once in exp1.c, once in exp.c, which opens the terminal
  -- behind it, and twice in wonderShell.c.
  pub plain_runs :
      (len : ℕ) (s : Shell)
      → Each IsPlain (args_from 0 len s.list)
      → let once : M Unit = execute_inbuild os rounds home shows len in
        (Exp1.chk_file os rounds home shows len s ≡ (once >> pure tt) s)
        × (Exp.chk_file os rounds home shows len s ≡ (once >> (call os open_tty >> pure tt)) s)
        × (Redirect.chk_file os rounds home shows len s ≡ (once >> once) s)
  unfolding Exp1.chk_file Exp.chk_file Exp1.run_found Exp.run_found
  plain_runs len s plain = (
    rw
        (scan-all (Exp1.input_file_from os rounds home shows len)
          (Redirect.output_file_at os rounds home shows len) len s plain)
        refl,
    rw
        (scan-all (Redirect.input_file_from os rounds home shows len)
          (Exp.output_file_at os rounds home shows) len s plain)
        refl,
    chk_file-plain os rounds home shows len s plain,
  )
