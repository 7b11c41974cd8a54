-- ===== src/Shell/Stages.antt =====
-- Assignment3/wonderShell/wonderShell.c: the theorems on options, signals and pipelines at concrete
-- inputs.
use osassignments.Common.{ℕ, ◌≡◌, refl, true, false, none, [], ◌∷◌, arith}
use osassignments.Common.Int.{pos}
use osassignments.Shell.Pipeline.Numbered.{numbered}
use osassignments.Shell.Dispatch.{Show}
use osassignments.Shell.Process.{M, Shell, done, kill, number, pure, sigttin}
use osassignments.Shell.Jobs.{stopped, add_job}
use osassignments.Shell.Signals.{sigtstp, ctrl_z, ctrl_z-empty_name}
use osassignments.Shell.Text.{text, same_text}
use osassignments.Shell.Flags.{chk_flg_or_path}

-- Two `-l` ask for level 4.
level_four : chk_flg_or_path (text "-l" ∷ text "src" ∷ text "-l" ∷ []) ≡ 4
unfolding chk_flg_or_path same_text
level_four = refl

abbrev busy : Shell
busy = record {
  list = λ i. none;
  this_jobs = [];
  child_pid = pos 7;
  alarm = record { time_vld = false; tim_st = pos 0; wait_for = pos 0; msg = [] };
  calls = [];
}

abbrev quiet_show : Show → ℕ → M Unit
quiet_show show len = pure tt

-- Ctrl-Z on the child 7, where there are no jobs.
ctrl_z-empty_name_example :
    ctrl_z numbered true (pos 5) busy
    ≡ done tt (record busy {
      this_jobs = add_job stopped (pos 7) [] [];
      calls = kill (pos 7) (number sigtstp) ∷ kill (pos 7) sigttin ∷ [];
    })
ctrl_z-empty_name_example =
    ctrl_z-empty_name numbered (pos 5) 6 busy refl (λ e. ground (arith, e)) (omega arith)
