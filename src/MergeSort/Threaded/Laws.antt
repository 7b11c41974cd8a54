-- ===== src/MergeSort/Threaded/Laws.antt =====
-- Assignment4/q3_threaded.c: the program sorts, in whatever order the threads run, and also where
-- threads behind the first cannot be created.
use osassignments.Common.{
  ℕ, zero, suc, ◌+◌, ◌-◌, ◌/◌, ◌≤◌, ◌<◌, ◌≡◌, refl, sym, leb, ◌==◌, if◌then◌else◌, List, [], ◌∷◌,
  some, arith, Bool, Bool-cases, inl, inr, true, false, ◌&&◌,
}
use osassignments.Common.Int.{leb_ℤ}
use osassignments.Common.Segments.{seg}
use osassignments.MergeSort.Ordered.{merge_lists}
use osassignments.MergeSort.Passes.{Array, Merge}
use osassignments.MergeSort.Passes.Copies.{Written, copy_back_lem, copied}
use osassignments.MergeSort.Passes.Merges.{merged, merged-MergeInv, merged_rest}
use osassignments.MergeSort.Stretch.{
  Sorts, Halves, left_then_right, right_then_left, merge-Sorts, leb_ℤ-IsChoice,
}
use osassignments.MergeSort.Threaded.{
  Platform, my_comp, IsCompare, merge, two_threads, merge_sort_threaded, sort_all, min_length,
}

my_comp-IsCompare : IsCompare my_comp
unfolding my_comp
my_comp-IsCompare x y = ((λ h. ground arith), λ h. ground arith)

module _ (c array : Array) (left right : ℕ) (le : left ≤ right) where
  abbrev mid : ℕ
  mid = left + (right - left) / 2

  abbrev looped : Merge
  looped =
      merged 0 c leb_ℤ array array left (suc mid) (suc mid) (suc right) (omega arith) (omega arith)

  looped_i : looped.i ≤ suc mid
  looped_i =
      let (inv, _) =
        merged-MergeInv 0 c leb_ℤ array array left (suc mid) (suc mid) (suc right) (omega arith)
          (omega arith) in
      inv.i_in_range

  merge-Written :
      Written left ((suc mid - left) + (suc right - suc mid)) array (merge c array left right) [] (
        merge_lists leb_ℤ
          (seg array left (suc mid - left))
          (seg array (suc mid) (suc right - suc mid)))
  unfolding merge
  merge-Written =
      let w =
        merged_rest 0 c leb_ℤ array array left (suc mid) (suc mid) (suc right) (omega arith)
          (omega arith) (looped.i == suc mid) (λ h. ground arith) (λ h. ground (arith, looped_i)) in
      copy_back_lem left array _ _ _ _ (suc right) _ (copied 0 _ c _ _ w left array) (omega arith)

module _ (os : Platform) where
  open os use {qsort, qsort-Sorts, creates, right_first, malloc}

  -- A half is sorted whether its thread is created or not.
  either-Sorts :
      (b : Bool) (start start' count count' : ℕ) (array threaded : Array)
      → start ≡ start'
      → count ≡ count'
      → Sorts start' count' array threaded
      → Sorts start' count' array (if b then threaded else qsort my_comp start count array)
  either-Sorts true start start' count count' array threaded e f h = h
  either-Sorts false start start' count count' array threaded e f h =
      rw (e, f) (qsort-Sorts my_comp my_comp-IsCompare start' count' array)

  in_order-Halves :
      (b : Bool) (lo m n : ℕ) (left right : Array → Array) (array : Array)
      → ((a : Array) → Sorts lo m a (left a))
      → ((a : Array) → Sorts (lo + m) n a (right a))
      → Halves lo m n array (if b then left (right array) else right (left array))
  in_order-Halves true lo m n left right array l r =
      right_then_left lo m n array (right array) (left (right array)) (r array) (l (right array))
  in_order-Halves false lo m n left right array l r =
      left_then_right lo m n array (left array) (right (left array)) (l array) (r (left array))

  merge-Sorts_threaded :
      (c array halves : Array) (l r : ℕ) (le : l ≤ r)
      → Halves l (suc (mid c array l r le) - l) (suc r - suc (mid c array l r le)) array halves
      → Sorts l (suc r - l) array (merge c halves l r)
  merge-Sorts_threaded c array halves l r le h =
      let m : ℕ = l + (r - l) / 2 in
      let at : l + (suc m - l) ≡ suc m = omega arith in
      let size : (suc m - l) + (suc r - suc m) ≡ suc r - l = omega arith in
      let w = merge-Written c halves l r le in
      rw (← size)
        (merge-Sorts leb_ℤ leb_ℤ-IsChoice l (suc m - l) (suc r - suc m) array halves _ h (rw at w))

  two_threads-Sorts :
      (place : List Bool) (l r : ℕ) (thread_0 thread_1 : Array → Array) (array : Array)
      → (le : l ≤ r) → ((a : Array) → Sorts l (suc (mid a array l r le) - l) a (thread_0 a))
      → ((a : Array)
          → Sorts (mid a array l r le + 1) (suc r - suc (mid a array l r le)) a (thread_1 a))
      → Sorts l (suc r - l) array (two_threads os place l r thread_0 thread_1 array)
  unfolding two_threads
  two_threads-Sorts place l r thread_0 thread_1 array le sorts_0 sorts_1 =
      let m : ℕ = l + (r - l) / 2 in
      let left_size : m - l + 1 ≡ suc m - l = omega arith in
      let right_size : r - m ≡ suc r - suc m = omega arith in
      let right_at : l + (suc m - l) ≡ m + 1 = omega arith in
      let left : Array → Array =
        λ a. if creates (true ∷ place) then thread_0 a else qsort my_comp l (m - l + 1) a in
      let right : Array → Array =
        λ a. if creates (false ∷ place) then thread_1 a else qsort my_comp (m + 1) (r - m) a in
      merge-Sorts_threaded _ array _ l r le (
        in_order-Halves (creates (true ∷ place) && right_first place) l (suc m - l) (suc r - suc m)
          left right array
          (λ a.
            either-Sorts (creates (true ∷ place)) l l (m - l + 1) (suc m - l) a (thread_0 a) refl
              left_size (sorts_0 a))
          (λ a.
            either-Sorts (creates (false ∷ place)) (m + 1) (l + (suc m - l)) (r - m) (suc r - suc m)
              a (thread_1 a) (sym right_at) right_size (rw right_at (sorts_1 a))))

  -- The cells from `l` to `r` are sorted, with fuel above their number.
  threaded-Sorts :
      (fuel : ℕ) (place : List Bool) (l r : ℕ) (array : Array)
      → l ≤ r
      → suc r - l ≤ fuel
      → Sorts l (suc r - l) array (merge_sort_threaded os fuel place l r array)
  unfolding merge_sort_threaded
  threaded-Sorts zero place l r array le enough = absurd (omega arith)
  threaded-Sorts (suc fuel) place l r array le enough =
      elim (Bool-cases (leb (r - l + 1) min_length)) [
        | inl e ↦
            let size : r - l + 1 ≡ suc r - l = omega arith in
            rw e (rw size (qsort-Sorts my_comp my_comp-IsCompare l (suc r - l) array))
        | inr e ↦
            let m : ℕ = l + (r - l) / 2 in
            let long : 5 < r - l + 1 = ground arith in
            let right_size : suc r - (m + 1) ≡ suc r - suc m = omega arith in
            rw e (
              two_threads-Sorts place l r _ _ array le
                (λ a. threaded-Sorts fuel (true ∷ place) l m a (omega arith) (omega arith))
                (λ a.
                  rw right_size at
                    (threaded-Sorts fuel (false ∷ place) (m + 1) r a (omega arith) (omega arith))))
      ]

  -- If the first thread can be created, then whatever other threads cannot, and whichever of two
  -- threads is first, the program ends with the items of the array in ascending order and the cells
  -- behind it untouched, given a `qsort` that sorts.
  pub sort_all-Sorts_threaded :
      (array : Array) (size : ℕ)
      → creates [] ≡ true
      → (sorted : Array) × (sort_all os array size ≡ some sorted) × Sorts 0 size array sorted
  unfolding sort_all
  sort_all-Sorts_threaded array zero first =
      (qsort my_comp 0 0 array, rw first refl, qsort-Sorts my_comp my_comp-IsCompare 0 0 array)
  sort_all-Sorts_threaded array (suc last) first =
      let size : suc last - 0 ≡ suc last = omega arith in
      (
        merge_sort_threaded os (suc last) [] 0 last array,
        rw first refl,
        rw size at (threaded-Sorts (suc last) [] 0 last array (omega arith) (omega arith)),
      )
