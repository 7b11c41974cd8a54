-- ===== src/Drafts/Examples.antt =====
-- Assignment3/wonderShell/exp.c and exp1.c: the theorems on them at concrete inputs.
use osassignments.Common.{
  ◌+◌, ◌*◌, arith, length, ℕ, zero, suc, ◌≡◌, refl, true, false, Option, none, some, List, [], ◌∷◌,
}
use osassignments.Common.Int.{ℤ, pos}
use osassignments.Shell.Text.{Text, text, same_text}
use osassignments.Shell.Inbuild.{args_from}
use osassignments.Shell.Process.{
  M, Os, Shell, Call, ◌>>◌, call, close, done, open_tty, pure, waitpid_nohang,
}
use osassignments.Shell.Dispatch.{Show, execute_inbuild}
use osassignments.Shell.Redirect
use osassignments.Drafts.Errlog.{fork_pipes}
use osassignments.Drafts.Leaks.{LogsAbove, fork_pipes-Leaks}
use osassignments.Shell.Pipeline.Descriptors.{open_fds}
use osassignments.Shell.Pipeline.Numbered.{
  top, numbered, numbered-fresh, numbered-IsParent, numbered-IsPatient, numbered-PipesAbove,
}
use osassignments.Shell.Process.Laws.{IfDone}
use osassignments.Shell.Redirect.Laws.{returns}
use osassignments.Drafts.Exp
use osassignments.Drafts.Exp1
use osassignments.Drafts.Laws.{plain_runs}
use osassignments.Drafts.Echo.{IsEchoTo, IsGood, echo_redirected, printed, to_file, moved}

-- The answer to the last call: no child has ended, and all else gives 1.
abbrev answer : List Call → ℤ
answer [] = pos 1
answer (waitpid_nohang p ∷ calls) = pos 0
answer (c ∷ calls) = pos 1

abbrev system : Os
system = record { reply = answer; ended = λ calls. true; letter = λ calls. none }

abbrev silent : Show → ℕ → M Unit
silent show len = pure tt

abbrev words : ℕ → Option Text
words zero = some (text "echo")
words (suc zero) = some (text "hi")
words (suc (suc zero)) = some (text ">")
words (suc (suc (suc zero))) = some (text "f")
words (suc (suc (suc (suc n)))) = none

-- The command `echo hi > f`.
abbrev typed : Shell
typed = record {
  list = words;
  this_jobs = [];
  child_pid = pos 0;
  alarm = record { time_vld = false; tim_st = pos 0; wait_for = pos 0; msg = [] };
  calls = [];
}

-- The command `echo hi`: its length is 2.
plain_runs_example :
    let once : M Unit = execute_inbuild system 5 [] silent 2 in
    (Exp1.chk_file system 5 [] silent 2 typed ≡ (once >> pure tt) typed)
    × (Exp.chk_file system 5 [] silent 2 typed ≡ (once >> (call system open_tty >> pure tt)) typed)
    × (Redirect.chk_file system 5 [] silent 2 typed ≡ (once >> once) typed)
unfolding same_text args_from
plain_runs_example =
    plain_runs system 5 [] silent 2 typed ((refl, refl, refl), ((refl, refl, refl), tt))

echo_hi : IsEchoTo 1 (text "f") typed
unfolding same_text args_from
echo_hi = record {
  name = refl;
  words = ((refl, refl, refl), ((refl, refl, refl), tt));
  sign = refl;
  target = refl;
  plain_file = (refl, refl, refl);
}

system-IsGood : IsGood system
system-IsGood = record {
  opens = λ append name calls. refl;
  moves = λ target calls. refl;
  quiet = λ calls. refl;
}

echo_redirected_example :
    let sent = to_file system 5 [] silent (some (text "hi") ∷ []) (text "f") [] in
    let args = some (text "hi") ∷ some (text ">") ∷ some (text "f") ∷ [] in
    (Exp1.chk_file system 5 [] silent 4 typed ≡ done tt (record typed { calls = sent }))
    × (Exp.chk_file system 5 [] silent 4 typed
        ≡ done tt (record typed {
          calls =
              open_tty
              ∷ printed system 5 [] silent args
                  (close (pos 1) ∷ moved system 5 [] silent (text "f") []);
        }))
    × (Redirect.chk_file system 5 [] silent 4 typed
        ≡ done tt (record typed { calls = printed system 5 [] silent args sent }))
unfolding args_from
echo_redirected_example = echo_redirected system 5 [] silent echo_hi system-IsGood

numbered-LogsAbove : LogsAbove numbered
unfolding top
numbered-LogsAbove calls = (ground arith, numbered-fresh (suc (top calls)) calls (omega arith))

-- The command `cat f | sort | wc`.
fork_pipes-Leaks_example :
    let cmds = (text "cat" ∷ text "f" ∷ []) ∷ (text "sort" ∷ []) ∷ (text "wc" ∷ []) ∷ [] in
    let o = fork_pipes numbered 1 (λ len. pure tt) cmds typed in
    (returns o ≡ true) × IfDone (λ _ t. length (open_fds numbered t.calls) ≡ 2 * 2 + 0) o
unfolding open_fds
fork_pipes-Leaks_example =
    fork_pipes-Leaks numbered 1 (λ len. pure tt) numbered-IsParent (text "cat" ∷ text "f" ∷ [])
      ((text "sort" ∷ []) ∷ (text "wc" ∷ []) ∷ []) typed numbered-PipesAbove numbered-LogsAbove
      numbered-IsPatient
