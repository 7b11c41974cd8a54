-- ===== src/Kernel/Invert.antt =====
-- Assignment5/xv6-public/invertcase.c: the program that prints its arguments with the other case.
use osassignments.Common.{
  ℕ, ◌+◌, ◌-◌, ◌≡◌, refl, ◌&&◌, List, [], ◌∷◌, ◌++◌, map, leb, if◌then◌else◌, arith,
}
use osassignments.Reversal.{invert_case}

unfoldable pub invert_char : ℕ → ℕ
invert_char temp =
    if leb b'A' temp && leb temp b'Z'
    then temp + 32
    else if leb b'a' temp && leb temp b'z'
    then temp - 32
    else temp

-- The loop over the characters of an argument.
unfoldable pub invert_word : List ℕ → List ℕ
unfolding invert_char
invert_word [] = []
invert_word (c ∷ word) = invert_char c ∷ invert_word word

-- What is printed, for the arguments behind the name of the program.
unfoldable pub invert_args : List (List ℕ) → List ℕ
unfolding invert_word
invert_args [] = []
invert_args (word ∷ words) = invert_word word ++ b' ' ∷ invert_args words

unfoldable pub invert_main : List (List ℕ) → List ℕ
unfolding invert_args
invert_main [] = []
invert_main (word ∷ words) = invert_args (word ∷ words) ++ b'\n' ∷ []

invert_char-invert_char : (c : ℕ) → invert_char (invert_char c) ≡ c
unfolding invert_char
invert_char-invert_char c = ground arith

invert_char-eq : (c : ℕ) → invert_char c ≡ invert_case c
unfolding invert_char
invert_char-eq c = ground arith

-- Inverting a word twice gives the word, and a word is inverted as task1.c of Assignment1 inverts
-- its codes, which tests for small letters first.
pub invert_word-invert_word :
    (word : List ℕ)
    → (invert_word (invert_word word) ≡ word) × (invert_word word ≡ map invert_case word)
unfolding invert_word
invert_word-invert_word [] = (refl, refl)
invert_word-invert_word (c ∷ word) = (
  rw (invert_char-invert_char c, (invert_word-invert_word word).0) refl,
  rw (invert_char-eq c, (invert_word-invert_word word).1) refl,
)
