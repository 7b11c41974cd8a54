-- ===== src/FirstShell/Commands.antt =====
-- Assignment2/wonderShell/wonderShell.c: `executeInbuild`, `switchForeOrBackGround` and the processes.
--
-- The variables `childpid` and `childProcName` are never read and left out.
use Prim.Native.String.{String}
use osassignments.Common.{ℕ, ◌-◌, Bool, Option, none, some, if◌then◌else◌, ◌==◌, ltb}
use osassignments.Common.Int.{pos, negsuc, eq_ℤ, ltb_ℤ, ℤ}
use osassignments.Shell.Text.{Text, text, same_text, starts_with, replace_word}
use osassignments.Shell.Display.{of_status}
use osassignments.Shell.Process.{
  M, Os, ◌>>=◌, ◌>>◌, arg, arg_is, call, crash, displayed, fork, chdir, crashed, done, echoed,
  getcwd, time, pure, run_child, set_null, wait_until_ended, waiting, waitpid_nohang,
}
use osassignments.Shell.Inbuild.{args_from, words_of}
use osassignments.Shell.Reminder.{set_alarm}
use osassignments.Shell.Dispatch.{clock, ls}
use osassignments.Shell.Shows.{World, display, shows}
use osassignments.FirstShell.Status.{Status, StatusFile, pinfo_own, pinfo_other}

module _ (os : Os) where
  unfoldable pub check_child : M Unit
  unfolding call
  check_child = call os (waitpid_nohang (negsuc 0)) >> pure tt

  unfoldable pub fore_ground_process : ℕ → ℕ → M Unit
  unfolding call run_child wait_until_ended
  fore_ground_process rounds len = do
    set_null len
    pid ← call os fork
    if eq_ℤ pid (pos 0)
        then run_child os
        else if ltb_ℤ pid (pos 0)
        then pure tt
        else wait_until_ended os rounds pid

  unfoldable pub back_ground_process : ℕ → M Unit
  unfolding call run_child
  back_ground_process len = do
    set_null len
    pid ← call os fork
    if eq_ℤ pid (pos 0) then run_child os else pure tt

  -- For a command with at least one word.
  unfoldable pub switch_fore_or_back_ground : ℕ → ℕ → M Unit
  unfolding arg_is fore_ground_process back_ground_process
  switch_fore_or_back_ground rounds len = do
    back ← arg_is (len - 1) (text "&")
    if back
        then (set_null (len - 1) >> back_ground_process (len - 1))
        else fore_ground_process rounds len

module _ (os : Os) (home : Text) where
  unfoldable cd_to : Option Text → M Unit
  unfolding call
  cd_to none = crash
  cd_to (some path) =
      let tilda = starts_with (text "~") path in
      let target = if tilda then replace_word path (text "~") home else path in
      call os (chdir (some target)) >> pure tt

  -- The test `len < 1` never holds behind the one for 0.
  unfoldable cd_command : M Unit
  unfolding cd_to
  cd_command = do path ← arg 1; cd_to path

module _ (os : Os) where
  unfoldable pwd_command : M Unit
  unfolding call
  pwd_command = do call os getcwd; pure tt

  -- All words behind the first, null pointers among them.
  unfoldable echo_command : ℕ → M Unit
  unfolding call
  echo_command len s = (call os (echoed (args_from 1 (len - 1) s.list)) >> pure tt) s

  -- `setAlarm(list, len)`: the three branches, where `words_of` is `none` with a null pointer among
  -- the words.
  unfoldable remind : ℕ → ℤ → M Unit
  remind len now s =
      if ltb len 3
      then done tt s
      else if s.alarm.time_vld
      then done tt s
      else elim (words_of (args_from 0 len s.list)) [
        | none ↦ crashed s
        | some words ↦ done tt (record s { alarm = (set_alarm now words s.alarm).0 })
      ]

  unfoldable remindme_command : ℕ → M Unit
  unfolding call remind
  remindme_command len = do now ← call os time; remind len now

show_pinfo : Option Status → M Unit
unfolding display
show_pinfo none = waiting
show_pinfo (some status) = display (displayed (of_status status))

module _ (os : Os) (rounds : ℕ) (home : Text) (world : World) (self : StatusFile)
    (others : Text → StatusFile) where
  pinfo_at : Option Text → M Unit
  unfolding show_pinfo pinfo_other
  pinfo_at none = crash
  pinfo_at (some pid) = show_pinfo (pinfo_other (others pid))

  -- Three words and more are a program of that name.
  unfoldable pub pinfo_pressed : ℕ → M Unit
  unfolding pinfo_at display pinfo_own
  pinfo_pressed len =
      if len == 1
      then display (displayed (of_status (pinfo_own self)))
      else if len == 2
      then (arg 1 >>= pinfo_at)
      else switch_fore_or_back_ground os rounds len

  -- The chain of tests on `list[0]`.
  unfoldable pub run_named : ℕ → Text → M Unit
  unfolding cd_command pwd_command remindme_command shows echo_command pinfo_pressed
      switch_fore_or_back_ground
  run_named len name =
      let is : String → Bool = λ word. same_text name (text word) in
      if is "clear"
      then pure tt
      else if is "cd"
      then cd_command os home
      else if is "pwd"
      then pwd_command os
      else if is "remindme"
      then remindme_command os len
      else if is "clock"
      then shows world clock len
      else if is "echo"
      then echo_command os len
      else if is "ls"
      then shows world ls len
      else if is "pinfo"
      then pinfo_pressed len
      else switch_fore_or_back_ground os rounds len

  unfoldable pub run_arg : ℕ → Option Text → M Unit
  unfolding run_named
  run_arg len none = crash
  run_arg len (some name) = run_named len name

  unfoldable pub execute_inbuild : ℕ → M Unit
  unfolding check_child run_arg
  execute_inbuild len = do check_child os; if len == 0 then pure tt else (arg 0 >>= run_arg len)
