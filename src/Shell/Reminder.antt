-- ===== src/Shell/Reminder.antt =====
-- Assignment3/wonderShell/wonderShell.c: `remindme`, one message that is printed after a delay.
--
-- The buffer of the message is taken to be long enough.
pub mod Laws
use osassignments.Common.{ℕ, Bool, true, false, List, [], ◌∷◌, ◌++◌, if◌then◌else◌}
use osassignments.Common.Int.{ℤ, pos, leb_ℤ, ltb_ℤ, ◌-ℤ◌}
use osassignments.Shell.Text.{Text, text, replace_all}
use osassignments.Shell.Number.{strtol}

-- `timeVLD`, `timSt`, `waitFor` and `msg`.
pub record Alarm : Type 0 where
  pub time_vld : Bool
  pub tim_st : ℤ
  pub wait_for : ℤ
  pub msg : Text

-- `chkAlarm` at the time `now`: the alarm behind it and the lines that it prints.
unfoldable pub chk_alarm : ℤ → Alarm → Alarm × List Text
unfolding ◌-ℤ◌
chk_alarm now a =
    let diff = now -ℤ a.tim_st in
    if a.time_vld
    then if leb_ℤ a.wait_for diff
      then (record a { time_vld = false; msg = [] }, (text "Reaminder:" ++ a.msg) ∷ [])
      else if ltb_ℤ diff (pos 0)
      then (
        record a { time_vld = false; msg = [] },
        text "Reaminder failed, printing message" ∷ a.msg ∷ [],
      )
      else (a, [])
    else (a, [])

-- `strcat(msg, list[i]); strcat(msg, " ");` for each word.
unfoldable pub add_words : Text → List Text → Text
add_words msg [] = msg
add_words msg (w ∷ ws) = add_words (msg ++ w ++ text " ") ws

-- `setAlarm`, for a command line `list` with its command name in front.
unfoldable pub set_alarm : ℤ → List Text → Alarm → Alarm × List Text
unfolding add_words replace_all strtol
set_alarm now (name ∷ delay ∷ word ∷ words) a =
    if a.time_vld then (a, text "Another timer is already set pls wait till it ends" ∷ []) else (
      record {
        time_vld = true;
        tim_st = now;
        wait_for = strtol delay;
        msg = replace_all (add_words a.msg (word ∷ words)) b'"' 32;
      },
      [],
    )
set_alarm now list a =
    (a, text "Unable to set remaninder, Usage -> remindme <time in mins> \"message\"" ∷ [])
