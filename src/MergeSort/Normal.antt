-- ===== src/MergeSort/Normal.antt =====
-- Assignment4/q3_normal.c: merge sort by recursion.
pub mod Laws
use osassignments.Common.{ℕ, zero, suc, ◌+◌, ◌-◌, ◌/◌, ◌≤◌, ◌<◌, ltb, leb, if◌then◌else◌}
use osassignments.Common.Int.{ℤ, leb_ℤ}
use osassignments.MergeSort.Passes.{Array, Copy, copy_loop, Merge, merge_loop}

-- `mergeSort`: merges `list[low..mid]` and `list[mid+1..high]`. `temp` is the local array, whose
-- cells hold anything at first; so `partition` has such an array for each pair of bounds.
unfoldable pub merge_sort : Array → Array → ℕ → ℕ → ℕ → Array
merge_sort temp list low mid high =
    let m =
      merge_loop leb_ℤ list list (suc mid) (suc high)
        (record { i = low; j = suc mid; at = low; out = temp }) in
    let filled =
      if ltb mid m.i
      then copy_loop list (suc high) (record { from = m.j; at = m.at; out = m.out })
      else copy_loop list (suc mid) (record { from = m.i; at = m.at; out = m.out }) in
    (copy_loop filled.out (suc high) (record { from = low; at = low; out = list })).out

-- `partition`, with `fuel` above the depth of the recursion.
unfoldable pub partition : (ℕ → ℕ → Array) → ℕ → Array → ℕ → ℕ → Array
unfolding merge_sort
partition temp zero list low high = list
partition temp (suc fuel) list low high =
    let mid = (low + high) / 2 in
    let sorted =
      let left = partition temp fuel list low mid in
      let right = partition temp fuel left (suc mid) high in
      merge_sort (temp low high) right low mid high in
    if ltb low high then sorted else list

-- The sort that `main` asks for. Where `size` is 0 the last index is -1 and nothing is done.
unfoldable pub sort_all : (ℕ → ℕ → Array) → Array → ℕ → Array
unfolding partition
sort_all temp list zero = list
sort_all temp list (suc last) = partition temp (suc last) list 0 last
