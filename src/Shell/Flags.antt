-- ===== src/Shell/Flags.antt =====
-- Assignment3/wonderShell/wonderShell.c: the options of `ls`, for the words behind its name.
use osassignments.Common.{
  ℕ, suc, ◌+◌, ◌*◌, ◌≡◌, refl, Bool, true, false, ◌||◌, List, [], ◌∷◌, if◌then◌else◌, ◌==◌, arith,
  ◌++◌, length, Each, append-nil, sym, ap, ◌∙◌,
}
use osassignments.Common.Int.{ℤ, pos, negsuc}
use osassignments.Shell.Text.{Text, text, same_text}

-- The loop of `chkFlgOrPath`, with the sum so far.
unfoldable pub flags_from : ℕ → List Text → ℕ
flags_from ret [] = ret
flags_from ret (w ∷ words) =
    let detail = flags_from (ret + 2) words in
    let all = flags_from (ret + 1) words in
    let rest = flags_from ret words in
    if same_text w (text "-l")
    then detail
    else if same_text w (text "-a")
    then all
    else if same_text w (text "-la")
    then 3
    else if same_text w (text "-al")
    then 3
    else rest

unfoldable pub chk_flg_or_path : List Text → ℕ
unfolding flags_from
chk_flg_or_path words = flags_from 0 words

-- Some word is `-la` or `-al`.
unfoldable pub has_both : List Text → Bool
has_both [] = false
has_both (w ∷ words) = same_text w (text "-la") || same_text w (text "-al") || has_both words

-- How often a word stands in a list.
unfoldable pub times : Text → List Text → ℕ
times flag [] = 0
times flag (w ∷ words) = if same_text w flag then suc (times flag words) else times flag words

unfoldable pub sum_of : List Text → ℕ
unfolding times
sum_of words = 2 * times (text "-l") words + times (text "-a") words

same_text-eq : (s t : Text) → same_text s t ≡ true → s ≡ t
unfolding same_text
same_text-eq [] [] h = refl
same_text-eq [] (d ∷ t) h = cc
same_text-eq (c ∷ s) [] h = cc
same_text-eq (c ∷ s) (d ∷ t) h = ground (arith, same_text-eq s t)

-- A word is one option at most.
only_l :
    (w : Text)
    → same_text w (text "-l") ≡ true
    → (same_text w (text "-a") ≡ false)
      × (same_text w (text "-la") ≡ false)
      × (same_text w (text "-al") ≡ false)
unfolding same_text
only_l w e = rw (same_text-eq w (text "-l") e) (refl, refl, refl)

only_a :
    (w : Text)
    → same_text w (text "-a") ≡ true
    → (same_text w (text "-la") ≡ false) × (same_text w (text "-al") ≡ false)
unfolding same_text
only_a w e = rw (same_text-eq w (text "-a") e) (refl, refl)

flags_from_lem :
    (ret : ℕ) (words : List Text)
    → flags_from ret words ≡ (if has_both words then 3 else ret + sum_of words)
unfolding flags_from has_both sum_of times
flags_from_lem ret [] = omega arith
flags_from_lem ret (w ∷ words) = ground (
  arith,
  only_l w,
  only_a w,
  flags_from_lem (ret + 2) words,
  flags_from_lem (ret + 1) words,
  flags_from_lem ret words,
)

-- One `-la` or `-al` asks for level 3. Without them the level is twice the number of `-l` and the
-- number of `-a`, so two `-l` ask for level 4.
chk_flg_or_path_lem :
    (words : List Text) → chk_flg_or_path words ≡ (if has_both words then 3 else sum_of words)
unfolding chk_flg_or_path
chk_flg_or_path_lem words = ground (arith, flags_from_lem 0 words)

-- `list[i][0] == '-' || list[i][0] == '&'`
unfoldable pub is_option : Text → Bool
is_option [] = false
is_option (c ∷ w) = c == b'-' || c == b'&'

unfoldable pub path_from : ℕ → List Text → ℤ
path_from i [] = negsuc 0
path_from i (w ∷ words) = let rest = path_from (suc i) words in if is_option w then rest else pos i

-- `parsePath`, for the words behind the name.
unfoldable pub parse_path : List Text → ℤ
unfolding path_from
parse_path words = path_from 1 words

add_zero : (i : ℕ) → i + 0 ≡ i
add_zero i = omega arith

add_suc : (i n : ℕ) → i + suc n ≡ suc i + n
add_suc i n = omega arith

path_from-options :
    (i : ℕ) (options words : List Text)
    → Each (λ w. is_option w ≡ true) options
    → path_from i (options ++ words) ≡ path_from (i + length options) words
unfolding path_from
path_from-options i [] words h = rw (add_zero i) refl
path_from-options i (w ∷ options) words h =
    rw (h.0, add_suc i (length options)) (path_from-options (suc i) options words h.1)

-- The first word that is no option is the path, at its place in the command; with options only
-- there is none, and the code gives -1.
parse_path_lem :
    (options : List Text)
    → Each (λ w. is_option w ≡ true) options
    → ((path : Text) (words : List Text)
        → is_option path ≡ false
        → parse_path (options ++ path ∷ words) ≡ pos (suc (length options)))
      × (parse_path options ≡ negsuc 0)
unfolding parse_path path_from
parse_path_lem options h = (
  λ path words e. rw (path_from-options 1 options (path ∷ words) h, e) (ap pos (omega arith)),
  sym (ap (path_from 1) (append-nil options)) ∙ path_from-options 1 options [] h,
)
