-- ===== src/FirstShell/Examples.antt =====
-- Assignment2/wonderShell/wonderShell.c: tests of pinfo and of a command.
use osassignments.Common.{zero, suc, ◌≡◌, refl, false, true, none, some, [], ◌∷◌}
use osassignments.Common.Int.{pos, negsuc}
use osassignments.Shell.Text.{text, same_text, starts_with, replace_word, tokens}
use osassignments.Shell.Process.{Os, Shell, chdir, done, waitpid_nohang}
use osassignments.Shell.Shows.{World}
use osassignments.FirstShell.Status.{StatusFile, no_information, pinfo_other, pinfo_own, shown}
use osassignments.FirstShell.Commands.{execute_inbuild}

abbrev childless : Os
childless = record { reply = λ calls. pos 0; ended = λ calls. true; letter = λ calls. none }

abbrev bare_world : World
bare_world = record {
  files = λ calls. record {
    entries = λ dir. none;
    stat = λ path. none;
    pw_name = λ uid. none;
    date = λ time. [];
  };
  procs = λ calls. record { stat = λ pid. none; statm = λ pid. none; exe = λ pid. [] };
  self = text "100";
  start = λ calls. 10;
  timer = λ calls. 10;
  rounds = λ calls. [];
}

abbrev status_file : StatusFile
status_file = record {
  lines = some (text "Name: sh" ∷ text "VmRSS: 512 kB" ∷ []);
  exe = text "/home/sh";
  cwd = text "/home";
  buffer = [];
}

-- The shell itself is shown, another process with the same lines is not.
pinfo_own_shown : pinfo_own status_file ≡ shown (some (text "512")) (some (text "~/sh"))
unfolding pinfo_own starts_with replace_word tokens
pinfo_own_shown = refl

pinfo_other_hidden : pinfo_other status_file ≡ some no_information
unfolding pinfo_other
pinfo_other_hidden = refl

-- The command `cd ~`.
abbrev typed : Shell
typed = record {
  list = λ i. elim i [ zero ↦ some (text "cd") | suc j ↦ some (text "~") ];
  this_jobs = [];
  child_pid = pos 0;
  alarm = record { time_vld = false; tim_st = pos 0; wait_for = pos 0; msg = [] };
  calls = [];
}

-- It asks for a child that has ended, and goes to the directory that the shell was started in.
cd_home :
    execute_inbuild childless 5 (text "/home") bare_world status_file (λ pid. status_file) 2 typed
    ≡ done tt
        (record typed { calls = chdir (some (text "/home")) ∷ waitpid_nohang (negsuc 0) ∷ [] })
unfolding execute_inbuild starts_with replace_word same_text
cd_home = refl
