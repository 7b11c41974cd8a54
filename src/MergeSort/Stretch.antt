-- ===== src/MergeSort/Stretch.antt =====
-- Assignment4/q3_*.c: what it means that a stretch of an array was sorted, and nothing else touched.
use mathlib.Core.List.{Perm, Pairwise, Pairwise-singleton}
use mathlib.Core.List.Perm
use osassignments.Common.{ℕ, zero, suc, ◌+◌, ◌≤◌, ◌≡◌, refl, sym, ◌∙◌, [], append-nil, arith, Bool}
use osassignments.Common.Int.{ℤ, leb_ℤ, ltb_ℤ}
use osassignments.Common.Segments.{seg, seg-append, seg_congr}
use osassignments.MergeSort.Ordered.{
  IsSorted, IsChoice, merge_lists, merge_lists-IsSorted, merge_lists-perm, IsSorted-eq_of_perm,
}
use osassignments.MergeSort.Passes.{Array}
use osassignments.MergeSort.Passes.Copies.{SameOutside, Written}

-- The `n` cells from `lo` on hold the items they held in `before`, in ascending order; the other
-- cells are as they were.
pub record Sorts (lo n : ℕ) (before after : Array) : Type 0 where
  pub sorted : IsSorted (seg after lo n)
  pub perm : Perm (seg after lo n) (seg before lo n)
  pub kept : SameOutside lo n before after

-- The same without the order.
pub record Rearranges (lo n : ℕ) (before after : Array) : Type 0 where
  pub perm : Perm (seg after lo n) (seg before lo n)
  pub kept : SameOutside lo n before after

pub Sorts-Rearranges : {lo n : ℕ} {f g : Array} → Sorts lo n f g → Rearranges lo n f g
Sorts-Rearranges h = record { perm = h.perm; kept = h.kept }

pub Rearranges-refl : (lo n : ℕ) (f : Array) → Rearranges lo n f f
Rearranges-refl lo n f = record { perm = Perm.rfl; kept = λ k. ((λ h. refl), λ h. refl) }

SameOutside-seg :
    (lo n : ℕ) (f g : Array) (at m : ℕ)
    → SameOutside lo n f g
    → (lo + n ≤ at)
    → seg f at m ≡ seg g at m
SameOutside-seg lo n f g at m h le = seg_congr f g at m (λ k a b. (h k).1 (omega arith))

SameOutside-seg_below :
    (lo n : ℕ) (f g : Array) (at m : ℕ)
    → SameOutside lo n f g
    → (at + m ≤ lo)
    → seg f at m ≡ seg g at m
SameOutside-seg_below lo n f g at m h le = seg_congr f g at m (λ k a b. (h k).0 (omega arith))

-- A test by `<=`, and one by `<`.
pub leb_ℤ-IsChoice : IsChoice leb_ℤ
leb_ℤ-IsChoice = record { yes_le = λ x y h. ground arith; no_le = λ x y h. ground arith }

pub ltb_ℤ-IsChoice : IsChoice ltb_ℤ
ltb_ℤ-IsChoice = record { yes_le = λ x y h. ground arith; no_le = λ x y h. ground arith }

-- Each of two neighbouring stretches is sorted by itself.
pub record Halves (lo m n : ℕ) (before after : Array) : Type 0 where
  pub sorted_left : IsSorted (seg after lo m)
  pub sorted_right : IsSorted (seg after (lo + m) n)
  pub perm_left : Perm (seg after lo m) (seg before lo m)
  pub perm_right : Perm (seg after (lo + m) n) (seg before (lo + m) n)
  pub kept : SameOutside lo (m + n) before after

module _ (lo m n : ℕ) (f g h : Array) where
  pub left_then_right : Sorts lo m f g → Sorts (lo + m) n g h → Halves lo m n f h
  left_then_right left right = record {
    sorted_left = rw same_left at left.sorted;
    sorted_right = right.sorted;
    perm_left = rw same_left at left.perm;
    perm_right = rw (SameOutside-seg lo m f g (lo + m) n left.kept (omega arith)) right.perm;
    kept = λ i. (
      (λ lt. (left.kept i).0 lt ∙ (right.kept i).0 (omega arith)),
      λ ge. (left.kept i).1 (omega arith) ∙ (right.kept i).1 (omega arith),
    );
  }
    where
      same_left : seg g lo m ≡ seg h lo m
      same_left = SameOutside-seg_below (lo + m) n g h lo m right.kept (omega arith)

  -- The stretches do not overlap, so the other order does as well.
  pub right_then_left : Sorts (lo + m) n f g → Sorts lo m g h → Halves lo m n f h
  right_then_left right left = record {
    sorted_left = left.sorted;
    sorted_right = rw same_right at right.sorted;
    perm_left = rw (SameOutside-seg_below (lo + m) n f g lo m right.kept (omega arith)) left.perm;
    perm_right = rw same_right at right.perm;
    kept = λ i. (
      (λ lt. (right.kept i).0 (omega arith) ∙ (left.kept i).0 lt),
      λ ge. (right.kept i).1 (omega arith) ∙ (left.kept i).1 (omega arith),
    );
  }
    where
      same_right : seg g (lo + m) n ≡ seg h (lo + m) n
      same_right = SameOutside-seg lo m g h (lo + m) n left.kept (omega arith)

-- Merging two sorted neighbours sorts both.
module _ (p : ℤ → ℤ → Bool) (choice : IsChoice p) (lo m n : ℕ) (f h k : Array) where
  pub merge-Sorts :
      Halves lo m n f h
      → Written lo (m + n) h k [] (merge_lists p (seg h lo m) (seg h (lo + m) n))
      → Sorts lo (m + n) f k
  merge-Sorts halves w = record {
    sorted = rw made (merge_lists-IsSorted p choice _ _ halves.sorted_left halves.sorted_right);
    perm =
        rw (made, seg-append)
          (Perm.trans (merge_lists-perm p _ _) (Perm.append halves.perm_left halves.perm_right));
    kept = λ i. (
      (λ lt. (halves.kept i).0 lt ∙ (w.kept i).0 lt),
      λ ge. (halves.kept i).1 ge ∙ (w.kept i).1 ge,
    );
  }
    where
      made : seg k lo (m + n) ≡ merge_lists p (seg h lo m) (seg h (lo + m) n)
      made = sym (append-nil _) ∙ w.made

-- Two ways to sort the same stretch end with the same cells.
pub Sorts-unique :
    (lo n : ℕ) (f g h : Array) → Sorts lo n f g → Sorts lo n f h → seg g lo n ≡ seg h lo n
Sorts-unique lo n f g h a b =
    IsSorted-eq_of_perm _ _ a.sorted b.sorted (Perm.trans a.perm (Perm.symm b.perm))

-- A stretch of at most one cell is sorted as it is.
pub Sorts-short : (lo n : ℕ) (f : Array) → n ≤ 1 → Sorts lo n f f
unfolding seg
Sorts-short lo zero f h = record {
  sorted = Pairwise.nil;
  perm = Perm.rfl;
  kept = λ k. ((λ h. refl), λ h. refl);
}
Sorts-short lo (suc zero) f h = record {
  sorted = Pairwise-singleton _ (f lo);
  perm = Perm.rfl;
  kept = λ k. ((λ h. refl), λ h. refl);
}
Sorts-short lo (suc (suc n)) f h = absurd (omega arith)

module _ (lo m n : ℕ) (f g h : Array) where
  -- Rearranging a stretch and then its right neighbour rearranges the two together.
  pub neighbours-Rearranges :
      Rearranges lo m f g → Rearranges (lo + m) n g h → Rearranges lo (m + n) f h
  neighbours-Rearranges left right = record {
    perm = rw (seg-append, seg-append) (Perm.append left_perm right_perm);
    kept = λ i. (
      (λ lt. (left.kept i).0 lt ∙ (right.kept i).0 (omega arith)),
      λ ge. (left.kept i).1 (omega arith) ∙ (right.kept i).1 (omega arith),
    );
  }
    where
      left_perm : Perm (seg h lo m) (seg f lo m)
      left_perm =
          rw (SameOutside-seg_below (lo + m) n g h lo m right.kept (omega arith)) at left.perm

      right_perm : Perm (seg h (lo + m) n) (seg f (lo + m) n)
      right_perm = rw (SameOutside-seg lo m f g (lo + m) n left.kept (omega arith)) right.perm

module _ (lo n : ℕ) (f g h : Array) where
  pub Rearranges-trans : Rearranges lo n f g → Rearranges lo n g h → Rearranges lo n f h
  Rearranges-trans a b = record {
    perm = Perm.trans b.perm a.perm;
    kept =
        λ i. ((λ lt. (a.kept i).0 lt ∙ (b.kept i).0 lt), λ ge. (a.kept i).1 ge ∙ (b.kept i).1 ge);
  }

-- A merge rearranges, whether its halves are sorted or not.
pub merge-Rearranges :
    (p : ℤ → ℤ → Bool) (lo m n : ℕ) (h k : Array)
    → Written lo (m + n) h k [] (merge_lists p (seg h lo m) (seg h (lo + m) n))
    → Rearranges lo (m + n) h k
merge-Rearranges p lo m n h k w = record {
  perm = rw (sym (append-nil _) ∙ w.made, seg-append) (merge_lists-perm p _ _);
  kept = w.kept;
}
