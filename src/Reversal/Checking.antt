-- ===== src/Reversal/Checking.antt =====
-- Assignment1/task2.c: the program that checks what task1.c wrote.
--
-- `stat` says what the system tells of a file, its mode or nothing; it is asked behind `symlink`. The
-- texts between the answers are left out.
pub mod Laws
use osassignments.Common.{
  ℕ, zero, suc, ◌+◌, ◌*◌, ◌/◌, ◌%◌, Bool, true, false, Option, none, some, List, [], ◌∷◌, ◌++◌,
  ◌==◌, if◌then◌else◌,
}
use osassignments.Shell.Text.{Text, text}
use osassignments.Reversal.{invert_case}

-- `fileExists`
unfoldable pub file_exists : (Text → Option ℕ) → Text → Bool
file_exists stat file = elim (stat file) [ none ↦ false | some mode ↦ true ]

-- `invChar`
abbrev pub inv_char : ℕ → ℕ
inv_char c = invert_case c

-- `read(resFileDes, &resChar, 1)`, which leaves the character alone at the end of the file.
unfoldable pub read_char : List ℕ → ℕ → ℕ × List ℕ
read_char [] c = (c, [])
read_char (d ∷ rest) c = (d, rest)

-- The loop of `chkFileCorrectness` for `a` and the place `a` in the file under test.
unfoldable pub check_from : ℕ → (ℕ → ℕ) → List ℕ → ℕ → Bool
unfolding read_char
check_from zero content res c = true
check_from (suc a) content res c =
    let (res_char, rest) = read_char res c in
    let more = check_from a content rest res_char in
    if content (suc a) == inv_char res_char then more else false

-- `chkFileCorrectness`, for a file of so many codes and the codes of the result; `c` is what `resChar`
-- held. In an empty file the first `lseek` gives -1.
unfoldable pub chk_file_correctness : ℕ → (ℕ → ℕ) → List ℕ → ℕ → Bool
unfolding check_from
chk_file_correctness zero content res c = true
chk_file_correctness (suc last) content res c = check_from last content res c

-- `fileStat.st_mode & (1 << k)`, where `weight` is `1 << k`.
abbrev pub has_bit : ℕ → ℕ → Bool
has_bit mode weight = mode / weight % 2 == 1

-- The nine answers: read, write and execute for the user, the group and the others.
unfoldable pub permissions : ℕ → List Bool
permissions mode =
    has_bit mode 256
    ∷ has_bit mode 128
    ∷ has_bit mode 64
    ∷ has_bit mode 32
    ∷ has_bit mode 16
    ∷ has_bit mode 8
    ∷ has_bit mode 4
    ∷ has_bit mode 2
    ∷ has_bit mode 1
    ∷ []

-- The last part of `main`: nothing where the directory cannot be looked at.
unfoldable pub directory_answers : Option ℕ → List Bool
unfolding permissions
directory_answers none = []
directory_answers (some mode) = permissions mode

unfoldable pub file_answers : (Text → Option ℕ) → Option ℕ → List Bool
unfolding permissions directory_answers
file_answers stat none = []
file_answers stat (some mode) = permissions mode ++ directory_answers (stat (text "Assignment"))

-- The answers of `main`, in order.
unfoldable pub check_main : (Text → Option ℕ) → ℕ → (ℕ → ℕ) → List ℕ → ℕ → List Bool
unfolding file_exists chk_file_correctness file_answers
check_main stat length content res c =
    file_exists stat (text "Assignment")
    ∷ file_exists stat (text "Assignment/rev1.txt")
    ∷ file_exists stat (text "Assignment_symlink")
    ∷ chk_file_correctness length content res c
    ∷ file_answers stat (stat (text "Assignment/rev1.txt"))
