-- ===== src/Shell/Dispatch.antt =====
-- Assignment3/wonderShell/wonderShell.c: `executeInbuild`, which runs one command.
--
-- `ls`, `clock` and `pinfo` are the parameter `shows`, for which `Shows` has the functions of the code.
-- `home` is `currentWD`, the directory that the shell was started in.
use Prim.Native.String.{String}
use osassignments.Common.{ℕ, ◌-◌, Bool, ◌||◌, Option, none, some, List, if◌then◌else◌, ◌==◌, ltb}
use osassignments.Common.Int.{ℤ}
use osassignments.Shell.Text.{Text, text, same_text, starts_with, replace_word}
use osassignments.Shell.Jobs.{jobs_pressed}
use osassignments.Shell.Reminder.{set_alarm}
use osassignments.Shell.Process.{
  M, Os, ◌>>=◌, ◌>>◌, arg, call, chdir, check_child, crash, crashed, done, echoed, getcwd, listed,
  pure, switch_fore_or_back_ground, time,
}
use osassignments.Shell.Inbuild.{
  args_from, words_of, fg_pressed, bg_pressed, kjob_pressed, over_kill, set_env_pressed,
  un_set_env_pressed,
}

-- The commands that are printed from what the system tells.
pub data Show : Type 0 where
  ls clock pinfo : Show

module _ (os : Os) (rounds : ℕ) (home : Text) (shows : Show → ℕ → M Unit) where
  unfoldable pub cd_at : Option Text → M Unit
  unfolding call
  cd_at none = crash
  cd_at (some path) = do
    call os (
        chdir
          (some (if starts_with (text "~") path then replace_word path (text "~") home else path)))
    pure tt

  unfoldable pub cd_command : M Unit
  unfolding cd_at
  cd_command = arg 1 >>= cd_at

  unfoldable pub set_alarm_at : ℕ → ℤ → Option (List Text) → M Unit
  set_alarm_at len now none s = if ltb len 3 || s.alarm.time_vld then done tt s else crashed s
  set_alarm_at len now (some words) s =
      done tt (record s { alarm = (set_alarm now words s.alarm).0 })

  unfoldable pub remindme_command : ℕ → M Unit
  unfolding call set_alarm_at
  remindme_command len s =
      (call os time >>= λ now. set_alarm_at len now (words_of (args_from 0 len s.list))) s

  unfoldable pub jobs_command : M Unit
  unfolding call
  jobs_command s = (call os (listed (jobs_pressed s.this_jobs)) >> pure tt) s

  unfoldable pub over_kill_pressed : M Unit
  unfolding over_kill
  over_kill_pressed s = over_kill os rounds s.this_jobs s

  unfoldable pub echo_command : ℕ → M Unit
  unfolding call
  echo_command len s = (call os (echoed (args_from 1 (len - 1) s.list)) >> pure tt) s

  unfoldable pub pwd_command : M Unit
  unfolding call
  pwd_command = call os getcwd >> pure tt

  -- The chain of tests on `list[0]`; the second test for `bg` never counts.
  unfoldable pub run_named : ℕ → Text → M Unit
  unfolding call
  run_named len name =
      let is : String → Bool = λ word. same_text name (text word) in
      if is "clear"
      then pure tt
      else if is "fg"
      then fg_pressed os rounds
      else if is "bg"
      then bg_pressed os rounds
      else if is "kjob"
      then kjob_pressed os rounds
      else if is "jobs"
      then jobs_command
      else if is "overkill"
      then over_kill_pressed
      else if is "setenv"
      then set_env_pressed os rounds len
      else if is "unsetenv"
      then un_set_env_pressed os rounds len
      else if is "cd"
      then cd_command
      else if is "pwd"
      then pwd_command
      else if is "remindme"
      then remindme_command len
      else if is "clock"
      then shows clock len
      else if is "echo"
      then echo_command len
      else if is "ls"
      then shows ls len
      else if is "pinfo"
      then shows pinfo len
      else switch_fore_or_back_ground os rounds len

  unfoldable pub run_arg : ℕ → Option Text → M Unit
  unfolding run_named
  run_arg len none = crash
  run_arg len (some name) = run_named len name

  unfoldable pub execute_inbuild : ℕ → M Unit
  unfolding check_child run_arg
  execute_inbuild len = do check_child os; if len == 0 then pure tt else (arg 0 >>= run_arg len)
