-- ===== src/Shell/Text/Replace.antt =====
-- Assignment3/wonderShell/wonderShell.c: `replaceWord` writes exactly the block that it reserves.
use osassignments.Common.{
  ℕ, zero, suc, ◌+◌, ◌*◌, ◌≤◌, ◌<◌, ◌≡◌, true, [], ◌∷◌, length, drop, length-append, length-drop,
  arith, Bool-cases, inl, inr,
}
use osassignments.Shell.Text.{Text, starts_with, count_word, write_replaced, replace_word, places}

starts_with-length-le : (w s : Text) → starts_with w s ≡ true → length w ≤ length s
unfolding starts_with
starts_with-length-le [] s h = omega arith
starts_with-length-le (c ∷ w) [] h = ground arith
starts_with-length-le (c ∷ w) (d ∷ s) h = ground (arith, starts_with-length-le w s)

write_replaced-length :
    (fuel : ℕ) (s old new : Text)
    → 0 < length old
    → length s ≤ fuel
    → length (write_replaced fuel s old new) + count_word fuel s old * length old
      ≡ length s + count_word fuel s old * length new
unfolding write_replaced count_word
write_replaced-length zero [] old new pos h = omega arith
write_replaced-length zero (c ∷ s) old new pos h = absurd (omega arith)
write_replaced-length (suc fuel) [] old new pos h = omega arith
write_replaced-length (suc fuel) (c ∷ s) old new pos h =
    elim (Bool-cases (starts_with old (c ∷ s))) [
      | inl e ↦
          let rest : Text = drop (length old) (c ∷ s) in
          let fits = starts_with-length-le old (c ∷ s) e in
          let shorter = length-drop (length old) (c ∷ s) in
          let ih = write_replaced-length fuel rest old new pos (omega arith) in
          rw (e, length-append new (write_replaced fuel rest old new)) (omega arith)
      | inr e ↦ rw e (omega (arith, write_replaced-length fuel s old new pos (omega arith)))
    ]

-- `replaceWord` reserves `strlen(s) + cnt * (strlen(newW) - strlen(oldW)) + 1` bytes, and writes as
-- many, the final 0 included, for every word to be replaced that is not empty.
pub replace_word-length :
    (s old new : Text)
    → 0 < length old
    → length (replace_word s old new) + places s old * length old
      ≡ length s + places s old * length new
unfolding replace_word places
replace_word-length s old new h = write_replaced-length (length s) s old new h (omega arith)
