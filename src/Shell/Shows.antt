-- ===== src/Shell/Shows.antt =====
-- Assignment3/wonderShell/wonderShell.c: `ls`, `clock` and `pinfo` as commands of the shell.
--
-- The directories, the processes and the clock are functions of the calls made so far. An argument is
-- NULL where an input redirection stood.
pub mod Laws
use osassignments.Common.{
  ℕ, ◌-◌, Bool, true, false, ◌&&◌, ◌||◌, not, if◌then◌else◌, Option, none, some, List, [], ◌∷◌,
}
use osassignments.Shell.Text.{Text}
use osassignments.Shell.Display.{of_ls, of_clock, of_pinfo}
use osassignments.Shell.Listing
use osassignments.Shell.Listing.{Files, Listing, opened}
use osassignments.Shell.Flags.{has_both, is_option}
use osassignments.Shell.Clock.{Round, clk_cmd}
use osassignments.Shell.Pinfo.{Procs, Info, pinfo_entered}
use osassignments.Shell.Process.{M, Call, displayed, crash, crashed, done}
use osassignments.Shell.Inbuild.{args_from, words_of}
use osassignments.Shell.Dispatch.{Show, ls, clock, pinfo}

-- `start` and `timer` are the first two readings of the clock, `rounds` those of the loop.
pub record World : Type 0 where
  pub files : List Call → Files
  pub procs : List Call → Procs
  pub self : Text
  pub start : List Call → ℕ
  pub timer : List Call → ℕ
  pub rounds : List Call → List Round

unfoldable pub display : Call → M Unit
display shown s = done tt (record s { calls = shown ∷ s.calls })

unfoldable pub show_info : Option Info → M Unit
unfolding display
show_info none = crash
show_info (some info) = display (displayed (of_pinfo info))

unfoldable pub show_listing : Option Listing → M Unit
unfolding display
show_listing none = crash
show_listing (some listing) = display (displayed (of_ls listing))

-- The words in front of the first NULL.
unfoldable pub words_till_null : List (Option Text) → List Text
words_till_null [] = []
words_till_null (none ∷ args) = []
words_till_null (some w ∷ args) = w ∷ words_till_null args

-- There is a word that is no option.
unfoldable pub has_path : List Text → Bool
unfolding is_option
has_path [] = false
has_path (w ∷ words) = if is_option w then has_path words else true

abbrev can_open : Option (List Text) → Bool
can_open none = false
can_open (some names) = true

-- `ls` with a NULL behind these words lives if it need not look at it: there is a path, which cannot
-- be opened or stands with `-la` or `-al`.
unfoldable pub ls_till_null : Files → List Text → Option Listing
unfolding Listing.ls opened has_both is_option
ls_till_null files words =
    if has_path words && (has_both words || not (can_open (files.entries (opened words))))
    then some (Listing.ls files words)
    else none

unfoldable pub ls_args : Files → List Text → Option (List Text) → Option Listing
unfolding ls_till_null Listing.ls
ls_args files known none = ls_till_null files known
ls_args files known (some words) = some (Listing.ls files words)

module _ (world : World) where
  unfoldable pub ls_command : List (Option Text) → M Unit
  unfolding show_listing ls_args words_till_null
  ls_command args s =
      show_listing (ls_args (world.files s.calls) (words_till_null args) (words_of args)) s

  unfoldable pub clock_words : List Text → M Unit
  unfolding display clk_cmd
  clock_words words s =
      display
        (displayed (
          of_clock
            (clk_cmd (world.start s.calls) (world.timer s.calls) (world.rounds s.calls) words)))
        s

  -- Only the lap is looked at, and only where there are two words.
  unfoldable pub clock_command : List (Option Text) → M Unit
  unfolding clock_words
  clock_command [] = clock_words []
  clock_command (opt ∷ []) = clock_words ([] ∷ [])
  clock_command (opt ∷ none ∷ args) = crash
  clock_command (opt ∷ some lap ∷ args) = clock_words ([] ∷ lap ∷ [])

  unfoldable pub pinfo_words : List Text → M Unit
  unfolding show_info pinfo_entered
  pinfo_words words s = show_info (pinfo_entered (world.procs s.calls) world.self words) s

  -- Only the word of a command of two words is looked at.
  unfoldable pub pinfo_command : List (Option Text) → M Unit
  unfolding pinfo_words
  pinfo_command (none ∷ []) = crash
  pinfo_command (some pid ∷ []) = pinfo_words (pid ∷ [])
  pinfo_command _ = pinfo_words []

  -- For a command of so many words, the name included.
  unfoldable pub shows : Show → ℕ → M Unit
  unfolding ls_command clock_command pinfo_command
  shows ls len s = ls_command (args_from 1 (len - 1) s.list) s
  shows clock len s = clock_command (args_from 1 (len - 1) s.list) s
  shows pinfo len s = pinfo_command (args_from 1 (len - 1) s.list) s
