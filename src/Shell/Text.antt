-- ===== src/Shell/Text.antt =====
-- Assignment3/wonderShell/wonderShell.c: the string functions, over lists of character codes.
--
-- A text is a C string without its final 0. `strstr(s, w) == s` is `starts_with w s`, and
-- `strtok` with its further calls is `tokens`.
pub mod Tokens
pub mod Replace
use Prim.Native.Char.{code}
use Prim.Native.String.{String}
use osassignments.Common.{
  ℕ, zero, suc, Bool, true, false, ◌&&◌, List, [], ◌∷◌, ◌++◌, ◌==◌, if◌then◌else◌, length, drop,
}

abbrev pub Text : Type 0
Text = List ℕ

-- The codes of a literal.
abbrev pub text : String → Text
text String.[] = []
text (String.◌∷◌ c s) = code c ∷ text s

-- `strcmp(s, t) == 0`.
unfoldable pub same_text : Text → Text → Bool
same_text [] [] = true
same_text (c ∷ s) (d ∷ t) = c == d && same_text s t
same_text _ _ = false

unfoldable pub starts_with : Text → Text → Bool
starts_with [] s = true
starts_with (c ∷ w) [] = false
starts_with (c ∷ w) (d ∷ s) = c == d && starts_with w s

-- `strchr(s, c) != NULL`.
unfoldable pub has_char : ℕ → Text → Bool
has_char c [] = false
has_char c (d ∷ s) = if c == d then true else has_char c s

-- `replaceAll`
unfoldable pub replace_all : Text → ℕ → ℕ → Text
replace_all [] old new = []
replace_all (c ∷ s) old new = (if c == old then new else c) ∷ replace_all s old new

-- The first loop of `replaceWord`, which counts the places where the word is replaced. The fuel is
-- the length of the string.
unfoldable pub count_word : ℕ → Text → Text → ℕ
unfolding starts_with
count_word zero s old = 0
count_word (suc fuel) [] old = 0
count_word (suc fuel) (c ∷ s) old =
    let at_word = suc (count_word fuel (drop (length old) (c ∷ s)) old) in
    let past = count_word fuel s old in if starts_with old (c ∷ s) then at_word else past

-- The second loop of `replaceWord`, which writes the result.
unfoldable pub write_replaced : ℕ → Text → Text → Text → Text
unfolding starts_with
write_replaced zero s old new = []
write_replaced (suc fuel) [] old new = []
write_replaced (suc fuel) (c ∷ s) old new =
    let at_word = new ++ write_replaced fuel (drop (length old) (c ∷ s)) old new in
    let past = c ∷ write_replaced fuel s old new in
    if starts_with old (c ∷ s) then at_word else past

unfoldable pub replace_word : Text → Text → Text → Text
unfolding write_replaced
replace_word s old new = write_replaced (length s) s old new

-- The number of places that `replaceWord` reserves its block for.
unfoldable pub places : Text → Text → ℕ
unfolding count_word
places s old = count_word (length s) s old

-- What `strtok` skips, and where it stops: a character of the delimiters.
abbrev pub is_delim : Text → ℕ → Bool
is_delim delims c = has_char c delims

-- The end of a token: an empty one is none.
unfoldable pub end_token : Text → List Text → List Text
end_token [] rest = rest
end_token (c ∷ token) rest = (c ∷ token) ∷ rest

-- The tokens of a string; `token` holds the characters of the one being read.
unfoldable pub tokens_from : Text → Text → Text → List Text
unfolding has_char end_token
tokens_from delims token [] = end_token token []
tokens_from delims token (c ∷ s) =
    let stop = end_token token (tokens_from delims [] s) in
    let more = tokens_from delims (token ++ c ∷ []) s in if is_delim delims c then stop else more

-- `strtok(s, delims)`, and `strtok(NULL, delims)` until it returns NULL.
unfoldable pub tokens : Text → Text → List Text
unfolding tokens_from
tokens delims s = tokens_from delims [] s
