-- ===== src/MergeSort/Forked/Laws.antt =====
-- Assignment4/q3_forked.c: the program sorts if every fork succeeds, and never loses an item.
use osassignments.Common.{
  ℕ, zero, suc, ◌+◌, ◌-◌, ◌/◌, ◌≤◌, ◌<◌, ◌≡◌, refl, ltb, List, [], ◌∷◌, arith, Bool, Bool-cases,
  inl, inr, true, false,
}
use osassignments.Common.Int.{ltb_ℤ}
use osassignments.Common.Segments.{seg}
use osassignments.MergeSort.Ordered.{merge_lists}
use osassignments.MergeSort.Passes.{Array}
use osassignments.MergeSort.Passes.Copies.{Written}
use osassignments.MergeSort.Stretch.{
  Sorts, Sorts-short, left_then_right, merge-Sorts, ltb_ℤ-IsChoice, Rearranges, Rearranges-refl,
  Rearranges-trans, neighbours-Rearranges, merge-Rearranges, Sorts-Rearranges,
}
use osassignments.MergeSort.Forked.{merge, Outcome, Platform, after_child, merge_sort, sort_all}
use osassignments.MergeSort.Forked.MergeLaws.{merge-Written}
use osassignments.MergeSort.Forked.Selection.{short-Sorts}

module _ (os : Platform) (left right : ℕ) (le : left ≤ right) where
  abbrev mid : ℕ
  mid = left + (right - left) / 2

  abbrev n_left : ℕ
  n_left = suc mid - left

  abbrev n_right : ℕ
  n_right = suc right - suc mid

  merged_array : Array → Array
  merged_array a = merge (os.locals left mid) (os.locals (suc mid) right) left mid right a

  merged_array-Written :
      (a : Array)
      → Written left
          (n_left + n_right)
          a
          (merged_array a)
          []
          (merge_lists ltb_ℤ (seg a left n_left) (seg a (left + n_left) n_right))
  unfolding merged_array
  merged_array-Written a =
      let at : left + n_left ≡ suc mid = omega arith in
      rw at (merge-Written _ _ left mid right a (omega arith) (omega arith))

  -- After the two halves, whichever of the processes ended.
  after_child-Rearranges :
      (sh : Array) (sort_right : Array → Outcome) (child : Outcome)
      → Rearranges left n_left sh child.memory
      → Rearranges (left + n_left) n_right child.memory (sort_right child.memory).memory
      → Rearranges left
          (n_left + n_right)
          sh
          (after_child os left mid right sort_right child).memory
  unfolding after_child merged_array
  after_child-Rearranges sh sort_right child l r =
      let both = neighbours-Rearranges left n_left n_right sh child.memory _ l r in
      elim (Bool-cases (sort_right child.memory).exited) [
        | inl e ↦ simp e both
        | inr e ↦ simp e (
            Rearranges-trans left _ sh _ _ both
              (merge-Rearranges ltb_ℤ left n_left n_right _ _ (merged_array-Written _)))
      ]

  after_child-Sorts :
      (sh : Array) (sort_right : Array → Outcome) (child : Outcome)
      → Sorts left n_left sh child.memory
      → Sorts (left + n_left) n_right child.memory (sort_right child.memory).memory
      → (sort_right child.memory).exited ≡ false
      → Sorts left (n_left + n_right) sh (after_child os left mid right sort_right child).memory
        × ((after_child os left mid right sort_right child).exited ≡ false)
  unfolding after_child merged_array
  after_child-Sorts sh sort_right child l r e = simp e (
    merge-Sorts ltb_ℤ ltb_ℤ-IsChoice left n_left n_right sh _ _
        (left_then_right left n_left n_right sh child.memory _ l r) (merged_array-Written _),
    refl,
  )

module _ (os : Platform) where
  open os use {forks}

  -- Whatever forks fail, the items between the bounds are kept, and so are the other cells.
  merge_sort-Rearranges :
      (fuel : ℕ) (place : List Bool) (left right : ℕ) (sh : Array)
      → left ≤ right
      → Rearranges left (suc right - left) sh (merge_sort os fuel place left right sh).memory
  unfolding merge_sort
  merge_sort-Rearranges zero place left right sh le = Rearranges-refl left _ sh
  merge_sort-Rearranges (suc fuel) place left right sh le =
      elim (Bool-cases (ltb (right - left) 2)) [
        | inl e ↦ simp e (Sorts-Rearranges (short-Sorts left right sh e le))
        | inr e ↦ elim (Bool-cases (forks place)) [
          | inl f ↦
              let m : ℕ = left + (right - left) / 2 in
              let long : 1 < right - left = ground arith in
              let at : left + (suc m - left) ≡ suc m = omega arith in
              let size : (suc m - left) + (suc right - suc m) ≡ suc right - left = omega arith in
              let child : Outcome = merge_sort os fuel (true ∷ place) left m sh in
              simp (e, f)
                (rw size at (
                  after_child-Rearranges os left right le sh
                    (λ a. merge_sort os fuel (false ∷ place) (suc m) right a) child
                    (merge_sort-Rearranges fuel (true ∷ place) left m sh (omega arith))
                    (rw at (
                      merge_sort-Rearranges fuel (false ∷ place) (suc m) right child.memory
                        (omega arith)))))
          | inr f ↦ simp (e, f) (Rearranges-refl left _ sh)
        ]
      ]

  -- If every fork succeeds the cells are sorted, with fuel from their number on.
  module _ (all_fork : (place : List Bool) → forks place ≡ true) where
    merge_sort-Sorts :
        (fuel : ℕ) (place : List Bool) (left right : ℕ) (sh : Array)
        → left ≤ right
        → suc right - left ≤ fuel
        → Sorts left (suc right - left) sh (merge_sort os fuel place left right sh).memory
          × ((merge_sort os fuel place left right sh).exited ≡ false)
    unfolding merge_sort
    merge_sort-Sorts zero place left right sh le enough = absurd (omega arith)
    merge_sort-Sorts (suc fuel) place left right sh le enough =
        elim (Bool-cases (ltb (right - left) 2)) [
          | inl e ↦ simp e (short-Sorts left right sh e le, refl)
          | inr e ↦
              let m : ℕ = left + (right - left) / 2 in
              let long : 1 < right - left = ground arith in
              let at : left + (suc m - left) ≡ suc m = omega arith in
              let size : (suc m - left) + (suc right - suc m) ≡ suc right - left = omega arith in
              let child : Outcome = merge_sort os fuel (true ∷ place) left m sh in
              let l = merge_sort-Sorts fuel (true ∷ place) left m sh (omega arith) (omega arith) in
              let r =
                merge_sort-Sorts fuel (false ∷ place) (suc m) right child.memory (omega arith)
                  (omega arith) in
              simp (e, all_fork place)
                (rw size at (
                  after_child-Sorts os left right le sh
                    (λ a. merge_sort os fuel (false ∷ place) (suc m) right a) child l.0 (rw at r.0)
                    r.1))
        ]

  -- Whatever forks fail, the array ends with the items that it had, and the cells behind it are
  -- kept.
  pub sort_all-Rearranges :
      (sh : Array) (size : ℕ) → Rearranges 0 size sh (sort_all os sh size).memory
  unfolding sort_all
  sort_all-Rearranges sh zero = Rearranges-refl 0 0 sh
  sort_all-Rearranges sh (suc last) =
      let e : suc last - 0 ≡ suc last = omega arith in
      rw e at (merge_sort-Rearranges (suc last) [] 0 last sh (omega arith))

  -- If every fork succeeds, the program does not end by an error, and the items of the array are
  -- in ascending order, with the cells behind it untouched.
  pub sort_all-Sorts_forked :
      ((place : List Bool) → forks place ≡ true)
      → (sh : Array) (size : ℕ)
      → Sorts 0 size sh (sort_all os sh size).memory × ((sort_all os sh size).exited ≡ false)
  unfolding sort_all
  sort_all-Sorts_forked all_fork sh zero = (Sorts-short 0 0 sh (omega arith), refl)
  sort_all-Sorts_forked all_fork sh (suc last) =
      let e : suc last - 0 ≡ suc last = omega arith in
      rw e at (merge_sort-Sorts all_fork (suc last) [] 0 last sh (omega arith) (omega arith))
