-- ===== src/Shell/Session.antt =====
-- Assignment3/wonderShell/wonderShell.c: a line of the loop of main at a concrete input.
use osassignments.Common.{◌≡◌, refl, if◌then◌else◌, true, false, none, List, [], ◌∷◌}
use osassignments.Common.Int.{ℤ, pos, eq_ℤ}
use osassignments.Shell.Text.{text}
use osassignments.Shell.Process.{Os, Shell, Call, ◌>>◌, dup, dup2, pipe, open_in, open_out}
use osassignments.Shell.Process.Laws.{IfDone}
use osassignments.Shell.Shows.{World, shows}
use osassignments.Shell.Main.{look_at_alarm, obey}
use osassignments.Shell.Restores.{file_at}
use osassignments.Shell.Restores.Loop.{AreKept, prompted, line_restores}

-- The copies of 0 and 1 get the numbers 10 and 11, a file or a pipe the number 3.
abbrev answer : List Call → ℤ
answer [] = pos 7
answer (dup d ∷ calls) = if eq_ℤ d (pos 0) then pos 10 else pos 11
answer (dup2 from to ∷ calls) = to
answer (pipe ∷ calls) = pos 3
answer (open_in name ∷ calls) = pos 3
answer (open_out append name ∷ calls) = pos 3
answer (c ∷ calls) = pos 7

abbrev numbered : Os
numbered = record { reply = answer; ended = λ calls. true; letter = λ calls. none }

abbrev bare_world : World
bare_world = record {
  files = λ calls. record {
    entries = λ dir. none;
    stat = λ path. none;
    pw_name = λ uid. none;
    date = λ time. [];
  };
  procs = λ calls. record { stat = λ pid. none; statm = λ pid. none; exe = λ pid. [] };
  self = text "100";
  start = λ calls. 10;
  timer = λ calls. 10;
  rounds = λ calls. [];
}

numbered-AreKept : AreKept numbered []
numbered-AreKept = record {
  input = record {
    taken = record {
      not_pipe = λ calls since. refl;
      not_in = λ name calls since. refl;
      not_out = λ append name calls since. refl;
    };
    high = record { not_in = refl; not_out = refl };
  };
  output = record {
    taken = record {
      not_pipe = λ calls since. refl;
      not_in = λ name calls since. refl;
      not_out = λ append name calls since. refl;
    };
    high = record { not_in = refl; not_out = refl };
  };
  differ = refl;
}

-- The first prompt.
abbrev prompt : Shell
prompt = record {
  list = λ i. none;
  this_jobs = [];
  child_pid = pos 0;
  alarm = record { time_vld = false; tim_st = pos 0; wait_for = pos 0; msg = [] };
  calls = prompted [];
}

line_restores_example :
    IfDone
      (λ _ t.
        (file_at numbered (pos 0) t.calls ≡ file_at numbered (pos 0) [])
        × (file_at numbered (pos 1) t.calls ≡ file_at numbered (pos 1) []))
      ((look_at_alarm numbered 1 [] (shows bare_world) (λ name. false)
          >> obey numbered 1 []
              (shows bare_world)
              (λ name. false)
              (pos 10)
              (pos 11)
              (text "echo hi > f; ls | wc\n"))
        prompt)
line_restores_example =
    line_restores numbered [] numbered-AreKept 1 [] bare_world (λ name. false)
      (text "echo hi > f; ls | wc\n") prompt refl
