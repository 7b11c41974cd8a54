-- ===== src/Shell/Examples.antt =====
-- Assignment3/wonderShell/wonderShell.c: the theorems of the shell at concrete inputs.
use osassignments.Common.{
  List, ◌+◌, ◌*◌, ◌≡◌, refl, true, false, none, some, ◌≢◌, [], ◌∷◌, ◌++◌, length, arith,
}
use osassignments.Common.Int.{ℤ, pos, ◌<ℤ◌, ◌≤ℤ◌, ◌+ℤ◌}
use osassignments.Shell.Text.{Text, text, replace_word, places, write_replaced}
use osassignments.Shell.Text.Replace.{replace_word-length}
use osassignments.Shell.Reminder.{Alarm, chk_alarm, set_alarm}
use osassignments.Shell.Reminder.Laws.{reminder_once}
use osassignments.Shell.Number.{strtol}
use osassignments.Shell.Jobs.{Job, stopped, running, delete_job}
use osassignments.Shell.Jobs.Laws.{has_pid, without_job, delete_job_lem}

abbrev home : Text
home = text "/home/me"

replace_word-length_example :
    length (replace_word (text "/home/me/os/home/me") home (text "~"))
      + places (text "/home/me/os/home/me") home * 8
    ≡ 19 + places (text "/home/me/os/home/me") home * 1
replace_word-length_example =
    replace_word-length (text "/home/me/os/home/me") home (text "~") (omega arith)

tilde : replace_word (text "/home/me/os/home/me") home (text "~") ≡ text "~/os~"
unfolding replace_word write_replaced
tilde = refl

abbrev idle_alarm : Alarm
idle_alarm = record { time_vld = false; tim_st = pos 0; wait_for = pos 0; msg = [] }

abbrev tea_alarm : Alarm
tea_alarm = (set_alarm (pos 100) (text "remindme" ∷ text "10" ∷ text "tea" ∷ []) idle_alarm).0

reminder_once_example :
    (pos 110 <ℤ (pos 100 +ℤ strtol (text "10"))
      → (chk_alarm (pos 110) tea_alarm ≡ (tea_alarm, []))
        × ((at : ℤ) (list : List Text) → (set_alarm at list tea_alarm).0 ≡ tea_alarm))
    × ((pos 100 +ℤ strtol (text "10")) ≤ℤ pos 110
        → ((chk_alarm (pos 110) tea_alarm).1 ≡ (text "Reaminder:" ++ tea_alarm.msg) ∷ [])
          × ((chk_alarm (pos 110) tea_alarm).0.time_vld ≡ false)
          × ((chk_alarm (pos 110) tea_alarm).0.msg ≡ [])
          × ((chk_alarm (pos 120) (chk_alarm (pos 110) tea_alarm).0).1 ≡ []))
reminder_once_example =
    reminder_once (pos 100) (pos 110) (pos 120) (text "remindme") (text "10") (text "tea") []
      idle_alarm refl (omega arith)

printed : (chk_alarm (pos 110) tea_alarm).1 ≡ text "Reaminder:tea " ∷ []
unfolding chk_alarm set_alarm
printed = refl

abbrev two_jobs : List Job
two_jobs =
    record { pid = pos 8; job_name = text "vi"; status = stopped }
    ∷ record { pid = pos 9; job_name = text "cc"; status = running }
    ∷ []

delete_job_lem_example :
    (has_pid (pos 9) two_jobs ≡ true
      → delete_job (pos 9) two_jobs ≡ some (without_job (pos 9) two_jobs))
    × (delete_job (pos 9) [] ≡ some [])
    × (two_jobs ≢ [] → has_pid (pos 9) two_jobs ≡ false → delete_job (pos 9) two_jobs ≡ none)
delete_job_lem_example = delete_job_lem (pos 9) two_jobs

-- Only the other job is left.
job_left :
    delete_job (pos 9) two_jobs
    ≡ some (record { pid = pos 8; job_name = text "vi"; status = stopped } ∷ [])
unfolding delete_job
job_left = refl
