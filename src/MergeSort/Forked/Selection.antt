-- ===== src/MergeSort/Forked/Selection.antt =====
-- Assignment4/q3_forked.c: the short branch, an exchange of at most two cells.
use mathlib.Core.List.{Perm}
use mathlib.Core.List.Perm
use osassignments.Common.{
  ℕ, zero, suc, ◌+◌, ◌-◌, ◌≤◌, ◌<◌, ◌≡◌, refl, ltb, ◌==◌, if◌then◌else◌, [], ◌∷◌, arith, Bool-cases,
  inl, inr, true,
}
use osassignments.Common.Int.{ℤ, ◌≤ℤ◌, ltb_ℤ, ◌+ℤ◌, ◌-ℤ◌}
use osassignments.Common.Segments.{seg}
use osassignments.MergeSort.Ordered.{IsSorted-pair}
use osassignments.MergeSort.Passes.{Array}
use osassignments.MergeSort.Stretch.{Sorts, Sorts-short}
use osassignments.MergeSort.Forked.{swap, selection}

-- The short branch sorts one or two cells.
swap_lem :
    (sh : Array) (p1 min_idx k : ℕ)
    → swap sh p1 min_idx k ≡ (if min_idx == k then sh p1 else if p1 == k then sh min_idx else sh k)
unfolding swap ◌+ℤ◌ ◌-ℤ◌
swap_lem sh p1 min_idx k = ground arith

-- Two cells that were exchanged, or not.
module _ (f g : Array) (left : ℕ) (x y : ℤ) (first : g left ≡ x) (second : g (suc left) ≡ y)
    (le : x ≤ℤ y) (outside : (k : ℕ) → (k < left → f k ≡ g k) × (left + 2 ≤ k → f k ≡ g k)) where
  pair-Sorts : Perm (x ∷ y ∷ []) (f left ∷ f (suc left) ∷ []) → Sorts left 2 f g
  unfolding seg
  pair-Sorts h = record {
    sorted = rw (first, second) (IsSorted-pair x y le);
    perm = rw (first, second) h;
    kept = outside;
  }

-- The exchanged cells, and those that stay.
swap-Sorts :
    (left min_idx : ℕ) (sh : Array)
    → min_idx ≡ (if ltb_ℤ (sh (suc left)) (sh left) then suc left else left)
    → Sorts left 2 sh (swap sh left min_idx)
swap-Sorts left min_idx sh e = elim (Bool-cases (ltb_ℤ (sh (suc left)) (sh left))) [
  | inl t ↦
      pair-Sorts sh (swap sh left min_idx) left (sh (suc left)) (sh left)
        (ground (arith, swap_lem sh left min_idx left))
        (ground (arith, swap_lem sh left min_idx (suc left))) (ground arith)
        (λ k. (
          (λ h. ground (arith, swap_lem sh left min_idx k)),
          λ h. ground (arith, swap_lem sh left min_idx k),
        ))
        (Perm.swap (sh left) (sh (suc left)) [])
  | inr t ↦
      pair-Sorts sh (swap sh left min_idx) left (sh left) (sh (suc left))
        (ground (arith, swap_lem sh left min_idx left))
        (ground (arith, swap_lem sh left min_idx (suc left))) (ground arith)
        (λ k. (
          (λ h. ground (arith, swap_lem sh left min_idx k)),
          λ h. ground (arith, swap_lem sh left min_idx k),
        ))
        Perm.rfl
]

selection-Sorts : (n left : ℕ) (sh : Array) → n ≤ 1 → Sorts left (suc n) sh (selection n left sh)
unfolding selection
selection-Sorts zero left sh h = Sorts-short left 1 sh (omega arith)
selection-Sorts (suc zero) left sh h = swap-Sorts left _ sh refl
selection-Sorts (suc (suc n)) left sh h = absurd (omega arith)

-- The short branch, between any bounds.
pub short-Sorts :
    (left right : ℕ) (sh : Array)
    → ltb (right - left) 2 ≡ true
    → left ≤ right
    → Sorts left (suc right - left) sh (selection (right - left) left sh)
short-Sorts left right sh short le =
    let size : suc right - left ≡ suc (right - left) = omega arith in
    rw size (selection-Sorts (right - left) left sh (ground arith))
