-- ===== src/MergeSort/Normal/Laws.antt =====
-- Assignment4/q3_normal.c: the program sorts, whatever the temporary arrays hold at first.
use osassignments.Common.{
  ℕ, zero, suc, ◌+◌, ◌-◌, ◌/◌, ◌≤◌, ◌<◌, ◌≡◌, refl, ltb, [], arith, Bool-cases, inl, inr,
}
use osassignments.Common.Int.{leb_ℤ}
use osassignments.Common.Segments.{seg}
use osassignments.MergeSort.Ordered.{merge_lists}
use osassignments.MergeSort.Passes.{Array}
use osassignments.MergeSort.Passes.Copies.{Written, copy_loop_lem, copied}
use osassignments.MergeSort.Passes.Merges.{merged, merged_rest}
use osassignments.MergeSort.Stretch.{
  Sorts, left_then_right, merge-Sorts, leb_ℤ-IsChoice, Sorts-short,
}
use osassignments.MergeSort.Normal.{merge_sort, partition, sort_all}

merge_sort-Written :
    (temp list : Array) (low mid high : ℕ)
    → low ≤ mid
    → mid ≤ high
    → Written low
        ((suc mid - low) + (suc high - suc mid))
        list
        (merge_sort temp list low mid high)
        []
        (merge_lists leb_ℤ (seg list low (suc mid - low)) (seg list (suc mid) (suc high - suc mid)))
unfolding merge_sort
merge_sort-Written temp list low mid high lm mh =
    let w =
      merged_rest low temp leb_ℤ list list low (suc mid) (suc mid) (suc high) (omega arith)
        (omega arith)
        (ltb mid
          (merged low temp leb_ℤ list list low (suc mid) (suc mid) (suc high) (omega arith)
            (omega arith)).i)
        (λ h. ground arith) (λ h. ground arith) in
    let e : low + ((suc mid - low) + (suc high - suc mid)) ≡ suc high = omega arith in
    copy_loop_lem low list _ _ (suc high) _ _ (rw e at (copied low _ temp _ _ w low list))

-- One level of the recursion: two sorted halves are merged.
module _ (temp : Array) (list left right : Array) (low mid high n : ℕ) (n_lem : n ≡ suc high - low)
    (lm : low ≤ mid) (mh : mid ≤ high) where
  merge_sort-Sorts :
      Sorts low (suc mid - low) list left
      → Sorts (suc mid) (suc high - suc mid) left right
      → Sorts low n list (merge_sort temp right low mid high)
  merge_sort-Sorts l r =
      let at : low + (suc mid - low) ≡ suc mid = omega arith in
      let size : (suc mid - low) + (suc high - suc mid) ≡ n = omega arith in
      let w = merge_sort-Written temp right low mid high lm mh in
      rw (← size) (
        merge-Sorts leb_ℤ leb_ℤ-IsChoice low (suc mid - low) (suc high - suc mid) list right _
          (left_then_right low _ _ list left right l (rw at r)) (rw at w))

-- With fuel above the number of cells, `partition` sorts the cells from `low` to `high`.
pub partition-Sorts :
    (temp : ℕ → ℕ → Array) (fuel : ℕ) (list : Array) (low high : ℕ)
    → suc high - low ≤ fuel
    → Sorts low (suc high - low) list (partition temp fuel list low high)
unfolding partition
partition-Sorts temp zero list low high enough = Sorts-short low (suc high - low) list (omega arith)
partition-Sorts temp (suc fuel) list low high enough = elim (Bool-cases (ltb low high)) [
  | inl e ↦
      let lt : low < high = ground arith in
      let mid : ℕ = (low + high) / 2 in
      rw e (
        merge_sort-Sorts _ list _ _ low mid high _ refl (omega arith) (omega arith)
          (partition-Sorts temp fuel list low mid (omega arith))
          (partition-Sorts temp fuel _ (suc mid) high (omega arith)))
  | inr e ↦ rw e (Sorts-short low (suc high - low) list (ground arith))
]

-- The program ends with the items of the array in ascending order and the cells behind it
-- untouched, whatever the temporary arrays hold at first.
pub sort_all-Sorts :
    (temp : ℕ → ℕ → Array) (list : Array) (size : ℕ) → Sorts 0 size list (sort_all temp list size)
unfolding sort_all
sort_all-Sorts temp list zero = Sorts-short 0 0 list (omega arith)
sort_all-Sorts temp list (suc last) =
    let e : suc last - 0 ≡ suc last = omega arith in
    rw e at (partition-Sorts temp (suc last) list 0 last (omega arith))
