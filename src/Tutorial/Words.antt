-- ===== src/Tutorial/Words.antt =====
-- Assignment3/Tutorial_3/2_pipe.c and 3_pipefork.c: what is written to a pipe, read and printed.
--
-- A word has a 0 behind it, and `read` gets 100 bytes at most. A pipe takes the word in one piece.
use osassignments.Common.{
  ℕ, drop, zero, suc, ◌<◌, ◌≡◌, ◌≢◌, refl, ap, List, [], ◌∷◌, ◌++◌, if◌then◌else◌, ◌==◌, Each, take,
  length, arith, ==-cases, inl, inr,
}
use osassignments.Shell.Text.{Text}

-- `write(fildes[1], s, strlen(s) + 1)`
abbrev pub with_end : Text → List ℕ
with_end word = word ++ 0 ∷ []

-- `read(fildes[0], f_content, 100)`, which leaves the rest of `f_content` as it was.
abbrev pub read_into : List ℕ → List ℕ → List ℕ
read_into f_content bytes = let got = take 100 bytes in got ++ drop (length got) f_content

-- What `%s` prints of a buffer.
unfoldable pub till_null : List ℕ → Text
till_null [] = []
till_null (c ∷ bytes) = let rest = till_null bytes in if c == 0 then [] else c ∷ rest

till_null-take :
    (n : ℕ) (word : Text)
    → length word < n
    → Each (λ c. c ≢ 0) word
    → (behind : List ℕ) → till_null (take n (with_end word) ++ behind) ≡ word
unfolding till_null
till_null-take zero word lt h behind = absurd (omega (arith, lt))
till_null-take (suc n) [] lt h behind = refl
till_null-take (suc n) (c ∷ word) lt h behind = elim (==-cases c 0) [
  | inl (t, e) ↦ absurd (h.0 e)
  | inr (t, e) ↦ rw t (ap (λ w. c ∷ w) (till_null-take n word (omega (arith, lt)) h.1 behind))
]

-- A word of less than 100 letters comes through, whatever `f_content` held.
pub word_through :
    (f_content : List ℕ) (word : Text)
    → length word < 100
    → Each (λ c. c ≢ 0) word
    → till_null (read_into f_content (with_end word)) ≡ word
word_through f_content word lt h = till_null-take 100 word lt h _
