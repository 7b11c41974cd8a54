-- ===== src/MergeSort/Threaded.antt =====
-- Assignment4/q3_threaded.c: merge sort with a thread for each half.
--
-- Two threads that run together work on disjoint stretches of the array, so their steps commute
-- and the model runs one thread after the other, in an order that is left open. `qsort` is the
-- C library's. Whether `pthread_create` succeeds, and which of two threads is first, may differ
-- at each place of the recursion, which a list of Booleans names (`true` for a left half).
pub mod Laws
use osassignments.Common.{
  ℕ, zero, suc, ◌+◌, ◌-◌, ◌/◌, ◌≤◌, ◌<◌, ◌≡◌, ◌↔◌, ltb, leb, ◌==◌, ◌&&◌, Bool, true, false, Option,
  none, some, if◌then◌else◌, List, [], ◌∷◌,
}
use osassignments.Common.Int.{ℤ, pos, negsuc, leb_ℤ, ltb_ℤ, eq_ℤ, ◌≤ℤ◌}
use osassignments.MergeSort.Passes.{Array, Copy, copy_loop, copy_back, Merge, merge_loop}
use osassignments.MergeSort.Stretch.{Sorts}

abbrev pub min_length : ℕ
min_length = 5

-- `my_comp`, which returns -1, 0 or 1.
unfoldable pub my_comp : ℤ → ℤ → ℤ
my_comp l r = if ltb_ℤ l r then negsuc 0 else if eq_ℤ l r then pos 0 else pos 1

-- A comparison that `qsort` may be given: not positive exactly if the first item may stand first.
abbrev pub IsCompare : (ℤ → ℤ → ℤ) → Type 0
IsCompare compare = (x y : ℤ) → (compare x y ≤ℤ pos 0) ↔ (x ≤ℤ y)

-- What the program takes from the C library and from the scheduler.
pub record Platform : Type 0 where
  -- `qsort(array + start, count, …, compare)`
  pub qsort : (ℤ → ℤ → ℤ) → (start count : ℕ) → Array → Array
  pub qsort-Sorts :
      (compare : ℤ → ℤ → ℤ)
      → IsCompare compare
      → (start count : ℕ) (array : Array)
      → Sorts start count array (qsort compare start count array)
  -- `pthread_create` returns 0 for the thread at this place.
  pub creates : List Bool → Bool
  -- The thread of the right half is done before that of the left half begins.
  pub right_first : List Bool → Bool
  -- What `malloc` returns holds anything, for each pair of bounds.
  pub malloc : ℕ → ℕ → Array

-- `merge`, with what the block `c` holds at first. The message under `DEBUG` is left out.
unfoldable pub merge : Array → Array → ℕ → ℕ → Array
merge c array left right =
    let mid = left + (right - left) / 2 in
    let m =
      merge_loop leb_ℤ array array (suc mid) (suc right)
        (record { i = left; j = suc mid; at = 0; out = c }) in
    let filled =
      if m.i == suc mid
      then copy_loop array (suc right) (record { from = m.j; at = m.at; out = m.out })
      else copy_loop array (suc mid) (record { from = m.i; at = m.at; out = m.out }) in
    (copy_back filled.out (suc right) (record { from = 0; at = left; out = array })).out

module _ (os : Platform) where
  -- The long branch of `merge_sort_threaded`: two threads, which run the two functions given, or
  -- `qsort` where a thread cannot be created; then, both being done, the merge.
  unfoldable pub two_threads : List Bool → ℕ → ℕ → (Array → Array) → (Array → Array) → Array → Array
  unfolding merge my_comp
  two_threads place l r thread_0 thread_1 array =
      let m = l + (r - l) / 2 in
      let left = λ (a : Array).
        if os.creates (true ∷ place) then thread_0 a else os.qsort my_comp l (m - l + 1) a in
      let right = λ (a : Array).
        if os.creates (false ∷ place) then thread_1 a else os.qsort my_comp (m + 1) (r - m) a in
      let halves =
        if os.creates (true ∷ place) && os.right_first place
        then left (right array)
        else right (left array) in
      merge (os.malloc l r) halves l r

  -- `merge_sort_threaded`, with `fuel` above the depth of the recursion.
  unfoldable pub merge_sort_threaded : ℕ → List Bool → ℕ → ℕ → Array → Array
  unfolding two_threads
  merge_sort_threaded zero place l r array = array
  merge_sort_threaded (suc fuel) place l r array =
      let m = l + (r - l) / 2 in
      let threads =
        two_threads place l r (λ a. merge_sort_threaded fuel (true ∷ place) l m a)
          (λ a. merge_sort_threaded fuel (false ∷ place) (m + 1) r a) array in
      if leb (r - l + 1) min_length then os.qsort my_comp l (r - l + 1) array else threads

  -- The end of `merge_sort`. It waits for `thread` in any case; where that was not created the
  -- variable was never set, and the behaviour of the program is undefined, which is `none`.
  unfoldable pub join_thread : Array → Option Array
  join_thread array = if os.creates [] then some array else none

  -- `merge_sort`. Where the first thread cannot be created the calling thread sorts before it waits.
  unfoldable pub merge_sort : Array → ℕ → ℕ → Option Array
  unfolding merge_sort_threaded join_thread
  merge_sort array start finish =
      let threaded = merge_sort_threaded (suc finish) [] start finish array in
      join_thread
        (if os.creates [] then threaded else os.qsort my_comp start (finish - start + 1) array)

  -- The sort that `main` asks for. For an empty array the bounds are 0 and -1, which is a
  -- `qsort` of no items whether the thread is created or not.
  unfoldable pub sort_all : Array → ℕ → Option Array
  unfolding merge_sort join_thread
  sort_all array zero = join_thread (os.qsort my_comp 0 0 array)
  sort_all array (suc last) = merge_sort array 0 last
