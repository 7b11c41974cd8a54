-- ===== src/Shell/Shows/Laws.antt =====
-- Assignment3/wonderShell/wonderShell.c: `ls` from the redirections on to what it prints.
use osassignments.Common.{ℕ, suc, ◌-◌, ◌≡◌, refl, ◌∙◌, false, some, List, ◌∷◌, arith, Each}
use osassignments.Common.Int.{pos, negsuc, ltb_ℤ}
use osassignments.Shell.Text.{Text, text, same_text}
use osassignments.Shell.Listing
use osassignments.Shell.Display.{of_ls}
use osassignments.Shell.Inbuild.{args_from, words_of}
use osassignments.Shell.Process.{
  Os, Shell, Call, waitpid_nohang, displayed, check_child, call, done,
}
use osassignments.Shell.Dispatch.{execute_inbuild, run_arg, run_named}
use osassignments.Shell.Redirect.{chk_file}
use osassignments.Shell.Redirect.Laws.{IsPlain, chk_file-plain, some_left}
use osassignments.Shell.Shows.{World, shows, ls_command, ls_args, display}

one_less : (len : ℕ) → suc len - 1 ≡ len
one_less len = omega arith

module _ (os : Os) (rounds : ℕ) (home : Text) (world : World) (words : List Text) where
  -- The calls that a run of `ls` adds: the look for ended children and what is printed.
  abbrev pub listed_once : List Call → List Call
  listed_once calls =
      let looked = waitpid_nohang (negsuc 0) ∷ calls in
      displayed (of_ls (Listing.ls (world.files looked) words)) ∷ looked

  -- No child has ended.
  abbrev pub IsQuiet : Type 0
  IsQuiet =
      (calls : List Call) → ltb_ℤ (pos 0) (os.reply (waitpid_nohang (negsuc 0) ∷ calls)) ≡ false

  ls_once :
      (len : ℕ) (s : Shell)
      → s.list 0 ≡ some (text "ls")
      → words_of (args_from 1 len s.list) ≡ some words
      → IsQuiet
      → execute_inbuild os rounds home (shows world) (suc len) s
        ≡ done tt (record s { calls = listed_once s.calls })
  unfolding execute_inbuild check_child call run_arg run_named same_text shows ls_command ls_args
      display
  ls_once len s name args quiet = rw (quiet s.calls, some_left len, name, one_less len, args) refl

  -- With no redirection among the arguments and no child that has ended, `ls` prints its listing
  -- twice, from what is in the directory at each time.
  ls_twice :
      (len : ℕ) (s : Shell)
      → Each IsPlain (args_from 0 (suc len) s.list)
      → s.list 0 ≡ some (text "ls")
      → words_of (args_from 1 len s.list) ≡ some words
      → IsQuiet
      → chk_file os rounds home (shows world) (suc len) s
        ≡ done tt (record s { calls = listed_once (listed_once s.calls) })
  ls_twice len s plain name args quiet =
      chk_file-plain os rounds home (shows world) (suc len) s plain
      ∙ rw (ls_once len s name args quiet)
          (ls_once len (record s { calls = listed_once s.calls }) name args quiet)
