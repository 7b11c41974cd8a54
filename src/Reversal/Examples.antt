-- ===== src/Reversal/Examples.antt =====
-- Assignment1/task1.c: the theorems on a block at concrete inputs.
use osassignments.Common.{◌≡◌, refl, if◌then◌else◌, ◌==◌, [], ◌∷◌, ◌++◌, ◌+◌, arith, ◌↔◌, true}
use osassignments.Reversal.{Buffer, turn_block}
use osassignments.Reversal.Copying.{copy_file}
use osassignments.Reversal.Copying.Laws.{backwards, back_block}
use osassignments.Reversal.Checking.{chk_file_correctness}
use osassignments.Reversal.Checking.Laws.{copy_file-passes, chk_file_correctness_iff}
use osassignments.Reversal.Copying.Files.{copy_file-backwards, copy_file-again}

-- `aB1`
abbrev three_codes : Buffer
three_codes i = if i == 0 then b'a' else if i == 1 then b'B' else if i == 2 then b'1' else 0

last_turned : turn_block 3 three_codes 2 ≡ b'A'
unfolding turn_block
last_turned = refl

abbrev alphabet : Buffer
alphabet i = b'a' + i

copy_file-backwards_example : (copy_file 5 alphabet 3 2 three_codes).out ≡ backwards alphabet 5
copy_file-backwards_example =
    copy_file-backwards 2 1 2 3 alphabet three_codes (omega arith) (omega arith) (omega arith)

copy_file-again_example :
    (copy_file 4 alphabet 3 2 three_codes).out ≡ (backwards alphabet 4 ++ backwards alphabet 2)
copy_file-again_example =
    copy_file-again 2 2 3 alphabet three_codes (omega arith) (omega arith) (omega arith)

-- `abcde` in blocks of two.
five_written : backwards alphabet 5 ≡ b'E' ∷ b'D' ∷ b'C' ∷ b'B' ∷ b'A' ∷ []
unfolding backwards
five_written = refl

copy_file-passes_example :
    chk_file_correctness 4 alphabet (copy_file 4 alphabet 3 2 three_codes).out 0 ≡ true
copy_file-passes_example =
    copy_file-passes 2 0 2 3 alphabet three_codes 0 (omega arith) (omega arith) (omega arith)

-- The last code of the result is not looked at.
chk_file_correctness_iff_example :
    (chk_file_correctness 3 alphabet (b'C' ∷ b'B' ∷ b'?' ∷ []) 0 ≡ true)
    ↔ (b'C' ∷ b'B' ∷ [] ≡ back_block alphabet 1 2)
chk_file_correctness_iff_example =
    chk_file_correctness_iff alphabet (b'C' ∷ b'B' ∷ []) (b'?' ∷ []) 0
