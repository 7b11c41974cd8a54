-- ===== src/Shell/Prints.antt =====
-- Assignment3/wonderShell/wonderShell.c: the theorems on ls and clock at concrete inputs.
use osassignments.Common.{
  ℕ, suc, ◌+◌, ◌*◌, ◌≤◌, ◌<◌, ◌≡◌, refl, none, some, List, [], ◌∷◌, ◌++◌, map, keep, if◌then◌else◌,
  arith,
}
use osassignments.Shell.Text.{Text, text, same_text}
use osassignments.Shell.Flags.{chk_flg_or_path, is_option, parse_path}
use osassignments.Shell.Listing.{Stat, Files, all_listed, ls, stat_path}
use osassignments.Shell.Listing.Laws.{is_shown, item, totals, blocks, ls_lem}
use osassignments.Shell.Clock.{Round, clk_cmd, laps, last_seen, clk_cmd_lem}
use osassignments.Shell.Number.{strtol}

-- Every file has the permissions rw-r--r-- and 8 blocks.
abbrev small_file : Stat
small_file = record {
  st_mode = 33188;
  st_nlink = 1;
  st_uid = 1000;
  st_gid = 1000;
  st_size = 300;
  st_mtime = 0;
  st_blocks = 8;
}

abbrev three_names : List Text
three_names = text "." ∷ text ".." ∷ text "f" ∷ []

-- The directory `d`, and the current one, hold the file `f`; there is no file `df`.
abbrev disk : Files
disk = record {
  entries = λ dir. some three_names;
  stat = λ path. if same_text path (text "df") then none else some small_file;
  pw_name = λ uid. some (text "student");
  date = λ time. text "Jan 01 00:00";
}

abbrev detailed_all : List Text
detailed_all = text "-l" ∷ text "-a" ∷ []

ls_lem_example :
    let shown = keep (is_shown (chk_flg_or_path detailed_all)) three_names in
    ls disk detailed_all
    ≡ all_listed (
        map (item disk (chk_flg_or_path detailed_all) (λ name. small_file)) shown
        ++ totals (chk_flg_or_path detailed_all) (blocks (λ name. small_file) shown))
unfolding same_text stat_path parse_path is_option
ls_lem_example =
    ls_lem disk detailed_all (λ name. small_file) three_names refl (refl, (refl, (refl, tt)))

abbrev at : ℕ → Round
at now = record { tim_ed = now; again = now }

-- The seconds from 10 to 13, some seen twice.
abbrev seconds : List Round
seconds = at 10 ∷ at 11 ∷ at 12 ∷ at 12 ∷ at 13 ∷ []

clk_cmd_lem_example :
    (count : ℕ) × (clk_cmd 10 10 seconds (text "-t" ∷ text "2" ∷ []) ≡ some (10 ∷ laps 2 10 count))
    × (10 + count * 2 ≤ last_seen 10 seconds)
    × (last_seen 10 seconds < 10 + suc count * 2)
unfolding strtol
clk_cmd_lem_example = clk_cmd_lem 1 10 10 seconds (text "-t") (text "2") [] refl (
  omega arith,
  omega arith,
  refl,
  (
    omega arith,
    omega arith,
    refl,
    (
      omega arith,
      omega arith,
      refl,
      (omega arith, omega arith, refl, (omega arith, omega arith, refl, tt)),
    ),
  ),
)
