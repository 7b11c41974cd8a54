-- ===== src/Reversal/Copying/Files.antt =====
-- Assignment1/task1.c: what is written for a whole file.
use osassignments.Common.{
  ℕ, zero, suc, ◌+◌, ◌*◌, ◌≤◌, ◌<◌, ◌≡◌, ◌⊎◌, refl, sym, ap, subst, ◌∙◌, List, [], ◌++◌,
  append_assoc, append-nil, arith, inl, inr,
}
use osassignments.Reversal.{Buffer}
use osassignments.Reversal.Copying.{Copying, full_round, last_round, copy, copy_file}
use osassignments.Reversal.Copying.Laws.{
  backwards, back_block, back_block-backwards, full_round_lem, last_round_lem, last_round-again,
}

module _ (length : ℕ) (content : ℕ → ℕ) (last : ℕ) where
  -- Between two rounds: `x` codes are left, and the place in the file is behind the block before.
  record IsGoing (x : ℕ) (s : Copying) : Type 0 where
    size : s.bufr_size ≡ suc last
    place : s.pos ≡ x + s.b
    count : (s.b ≡ 0) ⊎ (s.b ≡ suc last)
    inside : s.pos ≤ length

  copy_last :
      (fuel : ℕ) (s : Copying)
      → s.pos < s.bufr_size + s.b
      → copy length content (suc fuel) s ≡ last_round length content s
  unfolding copy
  copy_last fuel s lt = ground arith

  copy_full :
      (fuel : ℕ) (s : Copying)
      → s.bufr_size + s.b ≤ s.pos
      → copy length content (suc fuel) s ≡ copy length content fuel (full_round length content s)
  unfolding copy
  copy_full fuel s le = ground arith

  full_round-IsGoing :
      (x : ℕ) (s : Copying)
      → IsGoing (x + suc last) s
      → IsGoing x (full_round length content s)
        × ((full_round length content s).b ≡ suc last)
        × ((full_round length content s).out ≡ s.out ++ back_block content x (suc last))
  full_round-IsGoing x s g =
      let (p, b, z, o) = full_round_lem length content s last x g.size g.place g.inside in
      (
        record {
          size = z;
          place = p ∙ omega arith;
          count = inr b;
          inside = omega (arith, g.place, g.inside, p);
        },
        b,
        o,
      )

  -- A block in front of what was written, and the codes in front of the block.
  join :
      (x : ℕ) (out : List ℕ)
      → ((out ++ back_block content x (suc last)) ++ backwards content x)
        ≡ (out ++ backwards content (x + suc last))
  join x out =
      append_assoc out (back_block content x (suc last)) (backwards content x)
      ∙ ap (◌++◌ out) (back_block-backwards content x (suc last))

  rest_block : (x : ℕ) → back_block content 0 x ≡ backwards content x
  unfolding backwards
  rest_block x =
      sym (append-nil (back_block content 0 x))
      ∙ back_block-backwards content 0 x
      ∙ ap (backwards content) (omega arith)

  copy_lem :
      (q fuel r : ℕ) (s : Copying)
      → suc r ≤ last
      → q < fuel
      → IsGoing (q * suc last + suc r) s
      → (copy length content fuel s).out ≡ (s.out ++ backwards content (q * suc last + suc r))
  copy_lem q zero r s few lt g = absurd (omega arith)
  copy_lem zero (suc fuel) r s few lt g =
      let left : 0 * suc last + suc r ≡ suc r = omega arith in
      ap (λ t. t.out) (copy_last fuel s (omega (arith, g.size, g.place, left)))
      ∙ last_round_lem length content s last r g.size few (g.place ∙ ap (λ n. n + s.b) left) g.count
          g.inside
      ∙ ap (◌++◌ s.out) (rest_block (suc r) ∙ ap (backwards content) (sym left))
  copy_lem (suc q) (suc fuel) r s few lt g =
      let x : ℕ = q * suc last + suc r in
      let split : suc q * suc last + suc r ≡ x + suc last = omega arith in
      let (next, b, o) = full_round-IsGoing x s (subst (λ n. IsGoing n s) split g) in
      ap (λ t. t.out) (copy_full fuel s (omega (arith, g.size, g.place, split)))
      ∙ copy_lem q fuel r (full_round length content s) few (omega arith) next
      ∙ ap (λ l. l ++ backwards content x) o
      ∙ join x s.out
      ∙ ap (λ n. s.out ++ backwards content n) (sym split)

  copy-again :
      (q fuel : ℕ) (s : Copying)
      → q < fuel
      → (q ≡ 0 → s.b ≡ suc last)
      → IsGoing (q * suc last) s
      → (copy length content fuel s).out
        ≡ ((s.out ++ backwards content (q * suc last)) ++ back_block content 0 (suc last))
  unfolding backwards
  copy-again q zero s lt b g = absurd (omega arith)
  copy-again zero (suc fuel) s lt b g =
      let left : 0 * suc last ≡ 0 = omega arith in
      ap (λ t. t.out) (copy_last fuel s (omega (arith, g.size, g.place, left)))
      ∙ last_round-again length content s last g.size (omega (arith, g.place, left, b refl))
          g.inside
      ∙ ap (λ l. l ++ back_block content 0 (suc last))
          (sym (append-nil s.out) ∙ ap (λ n. s.out ++ backwards content n) (sym left))
  copy-again (suc q) (suc fuel) s lt b g =
      let x : ℕ = q * suc last in
      let split : suc q * suc last ≡ x + suc last = omega arith in
      let (next, c, o) = full_round-IsGoing x s (subst (λ n. IsGoing n s) split g) in
      ap (λ t. t.out) (copy_full fuel s (omega (arith, g.size, g.place, split)))
      ∙ copy-again q fuel (full_round length content s) (omega arith) (λ e. c) next
      ∙ ap (λ l. (l ++ backwards content x) ++ back_block content 0 (suc last)) o
      ∙ ap (λ l. l ++ back_block content 0 (suc last))
          (join x s.out ∙ ap (λ n. s.out ++ backwards content n) (sym split))

-- For a file of `q` blocks and `r` more codes, where `r` is neither 0 nor a whole block, the program
-- writes the codes of the file from the last to the first with the case of each letter inverted. More
-- rounds than blocks are enough.
pub copy_file-backwards :
    (q r size fuel : ℕ) (content : ℕ → ℕ) (garbage : Buffer)
    → 0 < r
    → r < size
    → q < fuel
    → (copy_file (q * size + r) content fuel size garbage).out ≡ backwards content (q * size + r)
unfolding copy_file
copy_file-backwards q r zero fuel content garbage some few enough = absurd (omega arith)
copy_file-backwards q zero size fuel content garbage some few enough = absurd (omega arith)
copy_file-backwards q (suc r) (suc last) fuel content garbage some few enough =
    copy_lem (q * suc last + suc r) content last q fuel r
      (record { pos = q * suc last + suc r; b = 0; bufr_size = suc last; bufr = garbage; out = [] })
      (omega arith) enough
      (record { size = refl; place = omega arith; count = inl refl; inside = omega arith })

-- For a file of `q` blocks, for `q` of 1 or more, the first block is written once more at the end.
pub copy_file-again :
    (q size fuel : ℕ) (content : ℕ → ℕ) (garbage : Buffer)
    → 0 < q
    → 0 < size
    → q < fuel
    → (copy_file (q * size) content fuel size garbage).out
      ≡ (backwards content (q * size) ++ backwards content size)
unfolding copy_file
copy_file-again q zero fuel content garbage some block enough = absurd (omega arith)
copy_file-again q (suc last) fuel content garbage some block enough =
    copy-again (q * suc last) content last q fuel
      (record { pos = q * suc last; b = 0; bufr_size = suc last; bufr = garbage; out = [] }) enough
      (λ e. absurd (omega arith))
      (record { size = refl; place = omega arith; count = inl refl; inside = omega arith })
    ∙ ap (◌++◌ (backwards content (q * suc last)))
        (rest_block (q * suc last) content last (suc last))
