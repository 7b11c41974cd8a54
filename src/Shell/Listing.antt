-- ===== src/Shell/Listing.antt =====
-- Assignment3/wonderShell/wonderShell.c: `ls` in `executeInbuild`, for the words behind its name.
--
-- What it prints is a list, without the widths of the numbers. Room for 5000 names and for the paths
-- and dates is taken to be enough.
pub mod Laws
use osassignments.Common.{
  ℕ, zero, suc, ◌+◌, ◌-◌, ◌/◌, ◌%◌, Bool, true, false, ◌&&◌, ◌||◌, not, Option, none, some, List,
  [], ◌∷◌, ◌++◌, take, get_or, if◌then◌else◌, leb, ◌==◌,
}
use osassignments.Common.Int.{ℤ, pos, negsuc}
use osassignments.Shell.Text.{Text, text, same_text}
use osassignments.Shell.Flags.{chk_flg_or_path, is_option, parse_path}

pub record Stat : Type 0 where
  pub st_mode : ℕ
  pub st_nlink : ℕ
  pub st_uid : ℕ
  pub st_gid : ℕ
  pub st_size : ℕ
  pub st_mtime : ℕ
  pub st_blocks : ℕ

-- What the system tells: the names in a directory, in the order of `readdir`, `none` where it cannot
-- be opened; `stat`; the name of `getpwuid`; the text that `strftime` makes of a time.
pub record Files : Type 0 where
  pub entries : Text → Option (List Text)
  pub stat : Text → Option Stat
  pub pw_name : ℕ → Option Text
  pub date : ℕ → Text

pub data Owner : Type 0 where
  by_name : Text → Owner
  by_number : ℕ → Owner

-- A line of the long form: is it a directory, the nine permissions, the number of links, the owner
-- and the group, the size, the time, the name.
pub record Line : Type 0 where
  pub directory : Bool
  pub permissions : List Bool
  pub links : ℕ
  pub user : Owner
  pub group : Owner
  pub size : ℕ
  pub changed : Text
  pub name : Text

pub data Shown : Type 0 where
  plain : Text → Shown
  detailed : Line → Shown
  total : ℕ → Shown

-- `unopened`: only a message. `broken_off`: `ls` returns in the middle.
pub data Listing : Type 0 where
  unopened : Listing
  broken_off all_listed : List Shown → Listing

unfoldable pub put_first : Shown → Listing → Listing
put_first item unopened = unopened
put_first item (broken_off items) = broken_off (item ∷ items)
put_first item (all_listed items) = all_listed (item ∷ items)

unfoldable pub is_dots : Text → Bool
unfolding same_text
is_dots name = same_text (text ".") name || same_text (text "..") name

-- The directory that is opened.
unfoldable pub opened : List Text → Text
unfolding is_option
opened [] = text "."
opened (w ∷ words) = let rest = opened words in if is_option w then rest else w

-- Where `stat` looks for an entry; `addrsI` counts from the name of the command on.
unfoldable pub stat_path : ℤ → List Text → Text → Text
stat_path (pos zero) words name = name
stat_path (pos (suc i)) words name = get_or words i [] ++ name
stat_path (negsuc i) words name = name

-- `mode & weight`, for a single bit.
abbrev has_bit : ℕ → ℕ → Bool
has_bit mode weight = mode / weight % 2 == 1

-- `"%-8.8s"` or `"%-8d"`.
unfoldable pub owner : Option Text → ℕ → Owner
owner none number = by_number number
owner (some name) number = by_name (take 8 name)

module _ (files : Files) where
  unfoldable pub line_of : Text → Stat → Line
  unfolding owner
  line_of name st = record {
    directory = st.st_mode / 4096 % 16 == 4;
    permissions =
        has_bit st.st_mode 256
        ∷ has_bit st.st_mode 128
        ∷ has_bit st.st_mode 64
        ∷ has_bit st.st_mode 32
        ∷ has_bit st.st_mode 16
        ∷ has_bit st.st_mode 8
        ∷ has_bit st.st_mode 4
        ∷ has_bit st.st_mode 2
        ∷ has_bit st.st_mode 1
        ∷ [];
    links = st.st_nlink;
    user = owner (files.pw_name st.st_uid) st.st_uid;
    group = owner (files.pw_name st.st_gid) st.st_gid;
    size = st.st_size;
    changed = files.date st.st_mtime;
    name = name;
  }

  -- An entry in the long form, and the rest of the loop.
  unfoldable pub detail : Text → Option Stat → ℕ → (ℕ → Listing) → Listing
  unfolding put_first line_of
  detail name none blksize rest = broken_off []
  detail name (some st) blksize rest =
      put_first (detailed (line_of name st)) (rest (blksize + st.st_blocks))

  -- The loop over the entries.
  unfoldable pub ls_entries : ℕ → List Text → List Text → ℕ → Listing
  unfolding put_first is_dots stat_path detail parse_path
  ls_entries level words [] blksize =
      if leb 2 level then all_listed (total (blksize / 2) ∷ []) else all_listed []
  ls_entries level words (name ∷ names) blksize =
      let rest : ℕ → Listing = ls_entries level words names in
      let same = rest blksize in
      if level == 0
      then (if is_dots name then same else put_first (plain name) same)
      else if level == 1
      then put_first (plain name) same
      else if level == 2 && not (is_dots name) || level == 3
      then detail name (files.stat (stat_path (parse_path words) words name)) blksize rest
      else same

  ls_opened : List Text → Option (List Text) → Listing
  unfolding ls_entries chk_flg_or_path
  ls_opened words none = unopened
  ls_opened words (some names) = ls_entries (chk_flg_or_path words) words names 0

  unfoldable pub ls : List Text → Listing
  unfolding ls_opened opened
  ls words = ls_opened words (files.entries (opened words))
