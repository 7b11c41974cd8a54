-- ===== src/Reversal/Checking/Laws.antt =====
-- Assignment1/task2.c and task1.c: what the check accepts, and that it accepts what task1.c writes.
use osassignments.Common.{
  ℕ, zero, suc, ◌+◌, ◌*◌, ◌/◌, ◌%◌, ◌<◌, ◌≡◌, refl, sym, ap, append-nil, ◌∙◌, Bool, true, false,
  List, [], ◌∷◌, ◌++◌, ◌==◌, if◌then◌else◌, arith, ==_iff, length, ◌↔◌,
}
use osassignments.Reversal.{Buffer, invert_case}
use osassignments.Reversal.Laws.{invert_case-invert_case}
use osassignments.Reversal.Copying.{copy_file}
use osassignments.Reversal.Copying.Laws.{backwards, back_block}
use osassignments.Reversal.Copying.Files.{copy_file-backwards, copy_file-again}
use osassignments.Reversal.Checking.{
  check_from, chk_file_correctness, has_bit, inv_char, permissions, read_char,
}

same : (n : ℕ) → (n == n) ≡ true
same n = ground arith

check_from-backwards :
    (last : ℕ) (content : ℕ → ℕ) (more : List ℕ) (c : ℕ)
    → check_from last content (backwards content (suc last) ++ more) c ≡ true
unfolding check_from read_char backwards
check_from-backwards zero content more c = refl
check_from-backwards (suc last) content more c =
    rw (invert_case-invert_case (content (suc last)), same (content (suc last)))
      (check_from-backwards last content more (invert_case (content (suc last))))

-- A result that begins with the right codes passes.
chk_file_correctness-backwards :
    (length : ℕ) (content : ℕ → ℕ) (more : List ℕ) (c : ℕ)
    → chk_file_correctness length content (backwards content length ++ more) c ≡ true
unfolding chk_file_correctness
chk_file_correctness-backwards zero content more c = refl
chk_file_correctness-backwards (suc last) content more c = check_from-backwards last content more c

-- For every file that is not empty, task2.c finds the result of task1.c right, also where the first
-- block was written twice.
pub copy_file-passes :
    (q r size fuel : ℕ) (content : ℕ → ℕ) (garbage : Buffer) (c : ℕ)
    → 0 < q + r
    → r < size
    → q < fuel
    → chk_file_correctness
        (q * size + r)
        content
        (copy_file (q * size + r) content fuel size garbage).out
        c
      ≡ true
copy_file-passes q zero size fuel content garbage c filled few enough =
    let whole : q * size + 0 ≡ q * size = omega arith in
    rw (whole, copy_file-again q size fuel content garbage (omega arith) few enough)
      (chk_file_correctness-backwards (q * size) content (backwards content size) c)
copy_file-passes q (suc r) size fuel content garbage c filled few enough =
    rw
      (
        copy_file-backwards q (suc r) size fuel content garbage (omega arith) few enough,
        sym (append-nil (backwards content (q * size + suc r))),
      )
      (chk_file_correctness-backwards (q * size + suc r) content [] c)

inv_char-eq : (a b : ℕ) → (a == inv_char b) ≡ true → b ≡ invert_case a
inv_char-eq a b h = sym (ap invert_case ((==_iff a (inv_char b)).0 h) ∙ invert_case-invert_case b)

both : (b c : Bool) → (if b then c else false) ≡ true → (b ≡ true) × (c ≡ true)
both true c h = (refl, h)
both false c h = cc

next_place : (n : ℕ) → 1 + n ≡ suc n
next_place n = omega arith

check_from-only :
    (content : ℕ → ℕ) (codes more : List ℕ) (c : ℕ)
    → check_from (length codes) content (codes ++ more) c ≡ true
    → codes ≡ back_block content 1 (length codes)
unfolding check_from read_char back_block
check_from-only content [] more c h = refl
check_from-only content (d ∷ codes) more c h =
    let (right, others) =
      both (content (suc (length codes)) == inv_char d)
        (check_from (length codes) content (codes ++ more) d) h in
    cc (
      inv_char-eq (content (suc (length codes))) d right,
      next_place (length codes),
      check_from-only content codes more d others,
    )

check_from-codes :
    (content : ℕ → ℕ) (codes more : List ℕ) (c : ℕ)
    → codes ≡ back_block content 1 (length codes)
    → check_from (length codes) content (codes ++ more) c ≡ true
unfolding check_from read_char back_block
check_from-codes content [] more c h = refl
check_from-codes content (d ∷ codes) more c h =
    let first : d ≡ invert_case (content (1 + length codes)) = cc in
    let others : codes ≡ back_block content 1 (length codes) = cc in
    rw
      (
        first,
        next_place (length codes),
        invert_case-invert_case (content (suc (length codes))),
        same (content (suc (length codes))),
      )
      (check_from-codes content codes more _ others)

-- The check passes exactly if all codes of the result but the last are right, whatever follows: the
-- loop ends before it compares the first code of the file.
pub chk_file_correctness_iff :
    (content : ℕ → ℕ) (codes more : List ℕ) (c : ℕ)
    → (chk_file_correctness (suc (length codes)) content (codes ++ more) c ≡ true)
      ↔ (codes ≡ back_block content 1 (length codes))
unfolding chk_file_correctness
chk_file_correctness_iff content codes more c =
    (check_from-only content codes more c, check_from-codes content codes more c)

-- Binary digits, the highest first.
unfoldable pub value_of : ℕ → List Bool → ℕ
value_of acc [] = acc
value_of acc (b ∷ bits) = value_of (2 * acc + (if b then 1 else 0)) bits

digit_lem : (mode weight : ℕ) → (if has_bit mode weight then 1 else 0) ≡ mode / weight % 2
digit_lem mode weight = ground arith

-- The nine answers are the lowest nine bits of the mode.
permissions_lem : (mode : ℕ) → value_of 0 (permissions mode) ≡ mode % 512
unfolding permissions value_of
permissions_lem mode =
    rw
      (
        digit_lem mode 256,
        digit_lem mode 128,
        digit_lem mode 64,
        digit_lem mode 32,
        digit_lem mode 16,
        digit_lem mode 8,
        digit_lem mode 4,
        digit_lem mode 2,
        digit_lem mode 1,
      )
      (omega arith)
