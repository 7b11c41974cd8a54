-- ===== src/Tutorial/Single.antt =====
-- Assignment3/Tutorial_3/2_pipe.c: one process writes to a pipe and reads from it.
use osassignments.Common.{ℕ, List, ◌<◌, ◌≡◌, ◌≢◌, Each, length}
use osassignments.Shell.Text.{Text}
use osassignments.Tutorial.Words.{with_end, read_into, till_null, word_through}

-- What `f_content` holds at first, the word that was entered, and what is printed as the contents of
-- the pipe.
unfoldable pub main : List ℕ → Text → Text
unfolding till_null
main f_content s = till_null (read_into f_content (with_end s))

-- A word of less than 100 letters is printed as it was entered.
pub main-word :
    (f_content : List ℕ) (s : Text) → length s < 100 → Each (λ c. c ≢ 0) s → main f_content s ≡ s
unfolding main
main-word f_content s lt h = word_through f_content s lt h
