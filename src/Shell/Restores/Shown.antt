-- ===== src/Shell/Restores/Shown.antt =====
-- Assignment3/wonderShell/wonderShell.c: ls, clock and pinfo only print.
use osassignments.Common.{ℕ, ◌-◌, refl, Option, none, some, List, [], ◌∷◌}
use osassignments.Common.Int.{ℤ}
use osassignments.Shell.Text.{Text}
use osassignments.Shell.Listing.{Listing}
use osassignments.Shell.Pinfo.{Info, pinfo_entered}
use osassignments.Shell.Inbuild.{args_from, words_of}
use osassignments.Shell.Process.{Os, Call, displayed}
use osassignments.Shell.Dispatch.{Show, ls, clock, pinfo}
use osassignments.Shell.Shows.{
  World, clock_command, clock_words, display, ls_args, ls_command, pinfo_command, pinfo_words,
  show_info, show_listing, shows, words_till_null,
}
use osassignments.Shell.Restores.{more, is_mild}
use osassignments.Shell.Restores.Actions.{Keeps}

module _ (os : Os) (d : ℤ) (base : List Call) where
  Keeps-show_info : (info : Option Info) → Keeps os d base (show_info info)
  unfolding show_info display is_mild
  Keeps-show_info none s i = tt
  Keeps-show_info (some info) s i = more (displayed _) refl i

  Keeps-show_listing : (listing : Option Listing) → Keeps os d base (show_listing listing)
  unfolding show_listing display is_mild
  Keeps-show_listing none s i = tt
  Keeps-show_listing (some listing) s i = more (displayed _) refl i

  module _ (world : World) where
    Keeps-clock_words : (words : List Text) → Keeps os d base (clock_words world words)
    unfolding clock_words display is_mild
    Keeps-clock_words words s i = more (displayed _) refl i

    Keeps-clock_command : (args : List (Option Text)) → Keeps os d base (clock_command world args)
    unfolding clock_command
    Keeps-clock_command [] s i = Keeps-clock_words [] s i
    Keeps-clock_command (opt ∷ []) s i = Keeps-clock_words ([] ∷ []) s i
    Keeps-clock_command (opt ∷ none ∷ args) s i = tt
    Keeps-clock_command (opt ∷ some lap ∷ args) s i = Keeps-clock_words ([] ∷ lap ∷ []) s i

    Keeps-pinfo_words : (words : List Text) → Keeps os d base (pinfo_words world words)
    unfolding pinfo_words
    Keeps-pinfo_words words s i =
        Keeps-show_info (pinfo_entered (world.procs s.calls) world.self words) s i

    Keeps-pinfo_command : (args : List (Option Text)) → Keeps os d base (pinfo_command world args)
    unfolding pinfo_command
    Keeps-pinfo_command [] s i = Keeps-pinfo_words [] s i
    Keeps-pinfo_command (none ∷ []) s i = tt
    Keeps-pinfo_command (some pid ∷ []) s i = Keeps-pinfo_words (pid ∷ []) s i
    Keeps-pinfo_command (none ∷ opt ∷ args) s i = Keeps-pinfo_words [] s i
    Keeps-pinfo_command (some pid ∷ opt ∷ args) s i = Keeps-pinfo_words [] s i

    pub Keeps-shows : (show : Show) (len : ℕ) → Keeps os d base (shows world show len)
    unfolding shows ls_command
    Keeps-shows ls len s i =
        let args = args_from 1 (len - 1) s.list in
        Keeps-show_listing (ls_args (world.files s.calls) (words_till_null args) (words_of args)) s
          i
    Keeps-shows clock len s i = Keeps-clock_command (args_from 1 (len - 1) s.list) s i
    Keeps-shows pinfo len s i = Keeps-pinfo_command (args_from 1 (len - 1) s.list) s i
