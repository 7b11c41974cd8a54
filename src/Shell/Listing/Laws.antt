-- ===== src/Shell/Listing/Laws.antt =====
-- Assignment3/wonderShell/wonderShell.c: which entries `ls` prints, and where it looks for them.
use osassignments.Common.{
  ℕ, zero, suc, ◌+◌, ◌/◌, ◌≡◌, refl, ap, ◌∙◌, Bool, false, ◌&&◌, ◌||◌, not, none, some, List, [],
  ◌∷◌, ◌++◌, map, keep, Each, Bool-cases, inl, inr, arith, if◌then◌else◌, leb, ◌==◌,
}
use osassignments.Shell.Text.{Text, text, same_text}
use osassignments.Shell.Flags.{chk_flg_or_path, is_option, parse_path}
use osassignments.Shell.Listing.{
  Stat, Files, Shown, plain, detailed, total, broken_off, all_listed, put_first, is_dots, opened,
  stat_path, line_of, detail, ls_entries, ls,
}

-- The entries that a level of detail shows.
unfoldable pub is_shown : ℕ → Text → Bool
is_shown level name = level == 1 || level == 3 || (level == 0 || level == 2) && not (is_dots name)

-- How an entry is shown, from what `stat` says of it.
unfoldable pub item : Files → ℕ → (Text → Stat) → Text → Shown
item files level stat_of name =
    if leb 2 level then detailed (line_of files name (stat_of name)) else plain name

unfoldable pub blocks : (Text → Stat) → List Text → ℕ
blocks stat_of [] = 0
blocks stat_of (name ∷ names) = (stat_of name).st_blocks + blocks stat_of names

-- The last line, from the long form on.
unfoldable pub totals : ℕ → ℕ → List Shown
totals level blksize = if leb 2 level then total (blksize / 2) ∷ [] else []

zero_add : (n : ℕ) → 0 + n ≡ n
zero_add n = omega arith

add_assoc : (a b c : ℕ) → a + b + c ≡ a + (b + c)
add_assoc a b c = omega arith

module _ (files : Files) (words : List Text) (stat_of : Text → Stat) where
  abbrev pub IsFound : Text → Type 0
  IsFound name = files.stat (stat_path (parse_path words) words name) ≡ some (stat_of name)

  ls_entries_lem :
      (level : ℕ) (names : List Text) (blksize : ℕ)
      → Each IsFound names
      → ls_entries files level words names blksize
        ≡ all_listed (
            map (item files level stat_of) (keep (is_shown level) names)
            ++ totals level (blksize + blocks stat_of (keep (is_shown level) names)))
  unfolding ls_entries is_shown item blocks totals detail put_first
  ls_entries_lem level [] blksize h = ground arith
  ls_entries_lem zero (name ∷ names) blksize h = elim (Bool-cases (is_dots name)) [
    | inl t ↦ rw (t, ls_entries_lem zero names blksize h.1) refl
    | inr t ↦ rw (t, ls_entries_lem zero names blksize h.1) refl
  ]
  ls_entries_lem (suc zero) (name ∷ names) blksize h =
      rw (ls_entries_lem (suc zero) names blksize h.1) refl
  ls_entries_lem (suc (suc zero)) (name ∷ names) blksize h = elim (Bool-cases (is_dots name)) [
    | inl t ↦ rw (t, ls_entries_lem 2 names blksize h.1) refl
    | inr t ↦
        rw (t, h.0, ls_entries_lem 2 names (blksize + (stat_of name).st_blocks) h.1)
          (rw
            (add_assoc blksize (stat_of name).st_blocks (blocks stat_of (keep (is_shown 2) names)))
            refl)
  ]
  ls_entries_lem (suc (suc (suc zero))) (name ∷ names) blksize h =
      rw (h.0, ls_entries_lem 3 names (blksize + (stat_of name).st_blocks) h.1)
        (rw (add_assoc blksize (stat_of name).st_blocks (blocks stat_of (keep (is_shown 3) names)))
          refl)
  ls_entries_lem (suc (suc (suc (suc level)))) (name ∷ names) blksize h =
      rw (ls_entries_lem (suc (suc (suc (suc level)))) names blksize h.1) ground arith

  -- Where the directory can be opened and `stat` finds every entry of it, `ls` shows the entries in
  -- their order: without `.` and `..` at the levels 0 and 2, all at 1 and 3, none from 4 on; from
  -- level 2 on in the long form, with half the blocks of what is shown as the total.
  pub ls_lem :
      (names : List Text)
      → files.entries (opened words) ≡ some names
      → Each IsFound names
      → let level = chk_flg_or_path words in
        let shown = keep (is_shown level) names in
        ls files words
        ≡ all_listed (map (item files level stat_of) shown ++ totals level (blocks stat_of shown))
  unfolding ls
  ls_lem names o h =
      rw (o, ls_entries_lem (chk_flg_or_path words) names 0 h)
        (rw (zero_add (blocks stat_of (keep (is_shown (chk_flg_or_path words)) names))) refl)

ls-opened :
    (files : Files) (words names : List Text)
    → files.entries (opened words) ≡ some names
    → ls files words ≡ ls_entries files (chk_flg_or_path words) words names 0
unfolding ls
ls-opened files words names o = rw o refl

-- The words `-l` and a directory.
long_of-level : (dir : Text) → is_option dir ≡ false → chk_flg_or_path (text "-l" ∷ dir ∷ []) ≡ 2
unfolding chk_flg_or_path same_text is_option
long_of-level [] o = refl
long_of-level (c ∷ dir) o = elim (Bool-cases (c == b'-')) [ inl t ↦ cc | inr t ↦ rw t refl ]

module _ (dir : Text) (o : is_option dir ≡ false) where
  long_of-path :
      (name : Text)
      → stat_path (parse_path (text "-l" ∷ dir ∷ [])) (text "-l" ∷ dir ∷ []) name ≡ dir ++ name
  unfolding parse_path is_option stat_path
  long_of-path name = rw o refl

  long_of-opened : opened (text "-l" ∷ dir ∷ []) ≡ dir
  unfolding opened is_option
  long_of-opened = rw o refl

long-step :
    (files : Files) (words : List Text) (name : Text) (names : List Text)
    → files.stat (stat_path (parse_path words) words name) ≡ none
    → is_dots name ≡ false
    → ls_entries files 2 words (text "." ∷ text ".." ∷ name ∷ names) 0 ≡ broken_off []
unfolding ls_entries detail same_text
long-step files words name names st d = rw (d, st) refl

module _ (files : Files) (dir name : Text) (names : List Text) where
  -- `ls -l` of a directory looks for an entry under the word that was typed and the name, without a
  -- slash between them. Where there is no such file, it returns at the first entry, before anything
  -- is printed.
  ls-no_slash :
      is_option dir ≡ false
      → is_dots name ≡ false
      → files.entries dir ≡ some (text "." ∷ text ".." ∷ name ∷ names)
      → files.stat (dir ++ name) ≡ none
      → ls files (text "-l" ∷ dir ∷ []) ≡ broken_off []
  ls-no_slash o d e st =
      let words = text "-l" ∷ dir ∷ [] in
      let inside = text "." ∷ text ".." ∷ name ∷ names in
      ls-opened files words inside (ap files.entries (long_of-opened dir o) ∙ e)
      ∙ ap (λ level. ls_entries files level words inside 0) (long_of-level dir o)
      ∙ long-step files words name names (ap files.stat (long_of-path dir o name) ∙ st) d
