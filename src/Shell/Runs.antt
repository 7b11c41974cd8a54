-- ===== src/Shell/Runs.antt =====
-- Assignment3/wonderShell/wonderShell.c: the theorems on running commands at concrete inputs.
use osassignments.Common.{
  List, true, ◌++◌, ℕ, ◌≡◌, refl, false, Option, none, some, [], ◌∷◌, ◌==◌, if◌then◌else◌,
}
use osassignments.Common.Int.{ℤ, pos, negsuc}
use osassignments.Shell.Text.{Text, text, has_char, same_text}
use osassignments.Shell.Text.Tokens.{empty, skip, last, word}
use osassignments.Shell.Parse.{alone, piped, splitcommands}
use osassignments.Shell.Parse.Laws.{splitcommands-alone}
use osassignments.Shell.Parse.Pipes.{real_pipes, splitcommands-piped}
use osassignments.Shell.Inbuild.{args_from}
use osassignments.Shell.Process.{Call, crashed, waitpid_nohang, M, Os, Shell, pure}
use osassignments.Shell.Dispatch.{Show}
use osassignments.Shell.Redirect.{chk_file}
use osassignments.Shell.Redirect.Laws.{background_dies, started}

-- The typed line `ls src; pwd`, with its line feed.
splitcommands-alone_example :
    splitcommands (text "ls src; pwd" ++ 10 ∷ [])
    ≡ alone (text "ls" ∷ text "src" ∷ []) ∷ alone (text "pwd" ∷ []) ∷ []
unfolding has_char
splitcommands-alone_example =
    splitcommands-alone (text "ls src; pwd" ++ 10 ∷ [])
      (text "ls src" ∷ (text " pwd" ++ 10 ∷ []) ∷ [])
      ((text "ls" ∷ text "src" ∷ []) ∷ (text "pwd" ∷ []) ∷ []) refl
      (word (text "ls src") b';' ((λ e. cc), (refl, (refl, (refl, (refl, (refl, (refl, tt)))))))
        refl
        (last (text " pwd" ++ 10 ∷ []) ((λ e. cc), (refl, (refl, (refl, (refl, (refl, tt))))))))
      (
        word (text "ls") 32 ((λ e. cc), (refl, (refl, tt))) refl
            (last (text "src") ((λ e. cc), (refl, (refl, (refl, tt))))),
        (
          skip 32 refl (word (text "pwd") 10 ((λ e. cc), (refl, (refl, (refl, tt)))) refl empty),
          tt,
        ),
      )

-- The typed line `ls|wc;pwd`, with its line feed: `pwd` is not run.
splitcommands-piped_example :
    splitcommands (text "ls|wc;pwd" ++ 10 ∷ [])
    ≡ real_pipes (((text "ls" ∷ []) ∷ (text "wc" ∷ []) ∷ []) ∷ ((text "pwd" ∷ []) ∷ []) ∷ [])
unfolding has_char
splitcommands-piped_example =
    splitcommands-piped (text "ls|wc;pwd" ++ 10 ∷ []) (text "ls|wc" ∷ text "pwd" ∷ [])
      (((text "ls" ∷ []) ∷ (text "wc" ∷ []) ∷ []) ∷ ((text "pwd" ∷ []) ∷ []) ∷ []) refl
      (word (text "ls|wc") b';' ((λ e. cc), (refl, (refl, (refl, (refl, (refl, tt)))))) refl
        (word (text "pwd") 10 ((λ e. cc), (refl, (refl, (refl, tt)))) refl empty))
      (
        (
          text "ls" ∷ text "wc" ∷ [],
          (
            word (text "ls") b'|' ((λ e. cc), (refl, (refl, tt))) refl
                (last (text "wc") ((λ e. cc), (refl, (refl, tt)))),
            (
              last (text "ls") ((λ e. cc), (refl, (refl, tt))),
              (last (text "wc") ((λ e. cc), (refl, (refl, tt))), tt),
            ),
          ),
        ),
        (
          (
            text "pwd" ∷ [],
            (
              last (text "pwd") ((λ e. cc), (refl, (refl, (refl, tt)))),
              (last (text "pwd") ((λ e. cc), (refl, (refl, (refl, tt)))), tt),
            ),
          ),
          tt,
        ),
      )

real_pipes_drops :
    real_pipes (((text "ls" ∷ []) ∷ (text "wc" ∷ []) ∷ []) ∷ ((text "pwd" ∷ []) ∷ []) ∷ [])
    ≡ piped ((text "ls" ∷ []) ∷ (text "wc" ∷ []) ∷ []) ∷ []
unfolding real_pipes
real_pipes_drops = refl

abbrev shell_with : (ℕ → Option Text) → Shell
shell_with list = record {
  list = list;
  this_jobs = [];
  child_pid = pos 0;
  alarm = record { time_vld = false; tim_st = pos 0; wait_for = pos 0; msg = [] };
  calls = [];
}

abbrev no_show : Show → ℕ → M Unit
no_show show len = pure tt

-- The first call is a look for children, of which none has ended; the child has the number 7.
abbrev answer : List Call → ℤ
answer [] = pos 7
answer (waitpid_nohang pid ∷ calls) = pos 0
answer (c ∷ calls) = pos 7

abbrev patient : Os
patient = record { reply = answer; ended = λ calls. true; letter = λ calls. some b'S' }

-- `sleep 9 &`
abbrev sleep_args : ℕ → Option Text
sleep_args i =
    if i == 0
    then some (text "sleep")
    else if i == 1
    then some (text "9")
    else if i == 2
    then some (text "&")
    else none

background_dies_example :
    let t = started patient 5 (text "/home") no_show 1 (text "sleep") (shell_with sleep_args) in
    chk_file patient 5 (text "/home") no_show 3 (shell_with sleep_args)
    ≡ crashed (record t { calls = waitpid_nohang (negsuc 0) ∷ t.calls })
unfolding same_text args_from
background_dies_example =
    background_dies patient 5 (text "/home") no_show 1 (text "sleep") (shell_with sleep_args)
      (
        refl,
        (
          refl,
          (
            refl,
            (
              refl,
              (
                refl,
                (refl, (refl, (refl, (refl, (refl, (refl, (refl, (refl, (refl, (refl, tt)))))))))),
              ),
            ),
          ),
        ),
      )
      (λ calls. refl) refl refl refl
      ((refl, refl, refl), ((refl, refl, refl), ((refl, refl, refl), tt)))
