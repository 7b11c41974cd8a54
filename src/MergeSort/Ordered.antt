-- ===== src/MergeSort/Ordered.antt =====
-- Ascending lists of integers and the merge of two such lists: what the sorting programs compute.
use mathlib.Core.List.{
  Perm, Pairwise, Pairwise-cons, Mem, mem-append, mem-cons, perm_middle, forall_mem-cons,
  not-mem-nil, Pairwise-singleton,
}
use mathlib.Core.List.Perm
use mathlib.Core.Logic.Or
use native.Mathlib.Bridge.{le_prop}
use osassignments.Common.{
  ◌≡◌, refl, Bool, true, false, List, [], ◌∷◌, ◌++◌, append-nil, arith, Bool-cases, inl, inr,
}
use osassignments.Common.Int.{ℤ, ◌≤ℤ◌, eq_of_parts}

abbrev pub IsSorted : List ℤ → Type 0
IsSorted = Pairwise ◌≤ℤ◌

-- `a` is at most every item of the list.
abbrev pub IsBelow : ℤ → List ℤ → Type 0
IsBelow a xs = (x : ℤ) → Mem x xs → a ≤ℤ x

-- The test by which a merge takes from the left list: it holds only if the left item may stand
-- first, and fails only if the right one may. `<=` and `<` both are such tests.
pub record IsChoice (left_first : ℤ → ℤ → Bool) : Type 0 where
  pub yes_le : (x y : ℤ) → left_first x y ≡ true → x ≤ℤ y
  pub no_le : (x y : ℤ) → left_first x y ≡ false → y ≤ℤ x

unfoldable pub merge_lists : (ℤ → ℤ → Bool) → List ℤ → List ℤ → List ℤ
merge_lists p [] ys = ys
merge_lists p (x ∷ xs) [] = x ∷ xs
merge_lists p (x ∷ xs) (y ∷ ys) = elim (p x y) [
  | true ↦ x ∷ merge_lists p xs (y ∷ ys)
  | false ↦ y ∷ merge_lists p (x ∷ xs) ys
]

IsBelow-head : (a : ℤ) {b : ℤ} {xs : List ℤ} → a ≤ℤ b → IsSorted (b ∷ xs) → IsBelow a (b ∷ xs)
IsBelow-head a {b} h (Pairwise.cons below _) =
    (forall_mem-cons (λ x. le_prop)).1 (h, λ x m. let k = below x m in omega arith)

module _ (p : ℤ → ℤ → Bool) where
  pub merge_lists-nil : (xs : List ℤ) → merge_lists p xs [] ≡ xs
  unfolding merge_lists
  merge_lists-nil [] = refl
  merge_lists-nil (x ∷ xs) = refl

  pub merge_lists-perm : (xs ys : List ℤ) → Perm (merge_lists p xs ys) (xs ++ ys)
  unfolding merge_lists
  merge_lists-perm [] ys = Perm.rfl
  merge_lists-perm (x ∷ xs) [] = rw (append-nil xs) Perm.rfl
  merge_lists-perm (x ∷ xs) (y ∷ ys) = elim (Bool-cases (p x y)) [
    | inl e ↦ rw (e, merge_lists) (Perm.cons x (merge_lists-perm xs (y ∷ ys)))
    | inr e ↦
        rw (e, merge_lists)
          (Perm.trans (Perm.cons y (merge_lists-perm (x ∷ xs) ys))
            (Perm.symm (perm_middle (x ∷ xs) ys)))
  ]

  IsBelow-merge_lists :
      (a : ℤ) (xs ys : List ℤ) → IsBelow a xs → IsBelow a ys → IsBelow a (merge_lists p xs ys)
  IsBelow-merge_lists a xs ys hx hy x m =
      Or.elim le_prop (mem-append.0 ((Perm.mem_iff (merge_lists-perm xs ys)).0 m)) (hx x) (hy x)

  pub merge_lists-IsSorted :
      IsChoice p → (xs ys : List ℤ) → IsSorted xs → IsSorted ys → IsSorted (merge_lists p xs ys)
  unfolding merge_lists
  merge_lists-IsSorted c [] ys sx sy = sy
  merge_lists-IsSorted c (x ∷ xs) [] sx sy = sx
  merge_lists-IsSorted c (x ∷ xs) (y ∷ ys) sx sy =
      let (x_below, tail_x) = Pairwise-cons.0 sx in
      let (y_below, tail_y) = Pairwise-cons.0 sy in
      elim (Bool-cases (p x y)) [
        | inl e ↦
            rw (e, merge_lists)
              (Pairwise.cons
                (IsBelow-merge_lists x xs (y ∷ ys) x_below (IsBelow-head x (c.yes_le x y e) sy))
                (merge_lists-IsSorted c xs (y ∷ ys) tail_x sy))
        | inr e ↦
            rw (e, merge_lists)
              (Pairwise.cons
                (IsBelow-merge_lists y (x ∷ xs) ys (IsBelow-head y (c.no_le x y e) sx) y_below)
                (merge_lists-IsSorted c (x ∷ xs) ys sx tail_y))
      ]

-- Two ascending lists with the same items are equal.
first_le : {a b : ℤ} {xs ys : List ℤ} → IsSorted (a ∷ xs) → Perm (b ∷ ys) (a ∷ xs) → a ≤ℤ b
first_le {a} {b} s h =
    IsBelow-head a (omega arith) s b ((Perm.mem_iff h).0 (mem-cons.1 (Or.inl refl)))

pub IsSorted-eq_of_perm : (xs ys : List ℤ) → IsSorted xs → IsSorted ys → Perm xs ys → xs ≡ ys
IsSorted-eq_of_perm [] ys sx sy h = Perm.nil-eq h
IsSorted-eq_of_perm (x ∷ xs) [] sx sy h = Perm.eq-nil h
IsSorted-eq_of_perm (x ∷ xs) (y ∷ ys) sx sy h =
    let e = eq_of_parts x y (omega (arith, first_le sx (Perm.symm h), first_le sy h)) in
    let rest = Perm.cons_inv (Perm.trans h (Perm.symm (Perm.cons' e Perm.rfl))) in
    cc (e, IsSorted-eq_of_perm xs ys (Pairwise-cons.0 sx).1 (Pairwise-cons.0 sy).1 rest)

pub IsSorted-pair : (x y : ℤ) → x ≤ℤ y → IsSorted (x ∷ y ∷ [])
IsSorted-pair x y h =
    Pairwise.cons ((forall_mem-cons (λ z. le_prop)).1 (h, λ z m. absurd (not-mem-nil m)))
      (Pairwise-singleton _ y)
