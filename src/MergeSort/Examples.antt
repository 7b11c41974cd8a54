-- ===== src/MergeSort/Examples.antt =====
-- Assignment4/q3_*.c: runs of the three programs, and each theorem at such a run.
use osassignments.Common.{
  ℕ, zero, suc, ◌+◌, ◌-◌, ◌≡◌, refl, Bool, true, false, Option, none, some, List, [], ◌∷◌, arith,
  get_or,
}
use osassignments.Common.Int.{ℤ, pos, negsuc, ◌+ℤ◌, ◌-ℤ◌}
use osassignments.Common.Segments.{seg}
use osassignments.MergeSort.Passes.{Array, copy_loop, copy_back, merge_loop}
use osassignments.MergeSort.Stretch.{Sorts, Sorts-short, Rearranges}
use osassignments.MergeSort.Normal
use osassignments.MergeSort.Normal.Laws.{partition-Sorts, sort_all-Sorts}
use osassignments.MergeSort.Threaded
use osassignments.MergeSort.Threaded.{IsCompare}
use osassignments.MergeSort.Threaded.Laws.{sort_all-Sorts_threaded}
use osassignments.MergeSort.Forked
use osassignments.MergeSort.Forked.Laws.{sort_all-Sorts_forked, sort_all-Rearranges}
use osassignments.MergeSort.Agreement.{programs_agree}

abbrev array_of : List ℤ → Array
array_of items i = get_or items i (pos 0)

abbrev sample : Array
sample = array_of (pos 5 ∷ negsuc 1 ∷ pos 9 ∷ pos 2 ∷ pos 0 ∷ pos 7 ∷ pos 2 ∷ [])

abbrev ascending : List ℤ
ascending = negsuc 1 ∷ pos 0 ∷ pos 2 ∷ pos 2 ∷ pos 5 ∷ pos 7 ∷ pos 9 ∷ []

-- Uninitialised memory.
abbrev garbage : ℕ → ℕ → Array
garbage low high i = pos (low + i)

normal_run : seg (Normal.sort_all garbage sample 7) 0 7 ≡ ascending
unfolding Normal.sort_all copy_loop merge_loop seg
normal_run = refl

-- A `qsort` that does what the C library documents.
some_qsort : (ℤ → ℤ → ℤ) → ℕ → ℕ → Array → Array
some_qsort compare start zero array = array
some_qsort compare start (suc n) array = Normal.partition garbage (suc n) array start (start + n)

some_qsort-Sorts :
    (compare : ℤ → ℤ → ℤ)
    → IsCompare compare
    → (start count : ℕ) (array : Array)
    → Sorts start count array (some_qsort compare start count array)
unfolding some_qsort
some_qsort-Sorts compare ok start zero array = Sorts-short start 0 array (omega arith)
some_qsort-Sorts compare ok start (suc n) array =
    let size : suc (start + n) - start ≡ suc n = omega arith in
    rw size at (partition-Sorts garbage (suc n) array start (start + n) (omega arith))

-- The thread of the left half cannot be created, and elsewhere the right half is done first.
abbrev threads : Threaded.Platform
threads = record {
  qsort = some_qsort;
  qsort-Sorts = some_qsort-Sorts;
  creates = λ place. elim place [ true ∷ [] ↦ false | _ ↦ true ];
  right_first = λ place. true;
  malloc = garbage;
}

-- The cells of an array that may be missing.
abbrev cells : Option Array → List ℤ
cells none = []
cells (some array) = seg array 0 7

threaded_run : cells (Threaded.sort_all threads sample 7) ≡ ascending
unfolding Threaded.sort_all Normal.sort_all copy_loop copy_back merge_loop seg some_qsort
threaded_run = refl

abbrev processes : Forked.Platform
processes = record { forks = λ place. true; locals = garbage }

forked_run : seg (Forked.sort_all processes sample 7).memory 0 7 ≡ ascending
unfolding Forked.sort_all copy_loop merge_loop seg ◌+ℤ◌ ◌-ℤ◌
forked_run = refl

-- Only the first fork succeeds: the child ends by an error that its parent does not look at, and
-- the program prints an array that is not sorted.
abbrev few_processes : Forked.Platform
few_processes = record { forks = λ place. elim place [ [] ↦ true | _ ↦ false ]; locals = garbage }

failed_fork_unnoticed :
    ((Forked.sort_all few_processes
        (array_of (pos 3 ∷ pos 2 ∷ pos 1 ∷ pos 5 ∷ pos 4 ∷ []))
        5).exited
      ≡ false)
    × (seg
          (Forked.sort_all few_processes
            (array_of (pos 3 ∷ pos 2 ∷ pos 1 ∷ pos 5 ∷ pos 4 ∷ []))
            5).memory
          0
          5
        ≡ pos 3 ∷ pos 2 ∷ pos 1 ∷ pos 4 ∷ pos 5 ∷ [])
unfolding Forked.sort_all copy_loop merge_loop seg ◌+ℤ◌ ◌-ℤ◌
failed_fork_unnoticed = (refl, refl)

sort_all-Sorts_example : Sorts 0 7 sample (Normal.sort_all garbage sample 7)
sort_all-Sorts_example = sort_all-Sorts garbage sample 7

sort_all-Sorts_threaded_example :
    (sorted : Array) × (Threaded.sort_all threads sample 7 ≡ some sorted) × Sorts 0 7 sample sorted
sort_all-Sorts_threaded_example = sort_all-Sorts_threaded threads sample 7 refl

every_fork : (place : List Bool) → processes.forks place ≡ true
every_fork place = refl

sort_all-Sorts_forked_example :
    Sorts 0 7 sample (Forked.sort_all processes sample 7).memory
    × ((Forked.sort_all processes sample 7).exited ≡ false)
sort_all-Sorts_forked_example = sort_all-Sorts_forked processes every_fork sample 7

sort_all-Rearranges_example : Rearranges 0 7 sample (Forked.sort_all few_processes sample 7).memory
sort_all-Rearranges_example = sort_all-Rearranges few_processes sample 7

programs_agree_example :
    ((sorted : Array) × (Threaded.sort_all threads sample 7 ≡ some sorted)
      × (seg (Normal.sort_all garbage sample 7) 0 7 ≡ seg sorted 0 7))
    × (seg (Normal.sort_all garbage sample 7) 0 7
        ≡ seg (Forked.sort_all processes sample 7).memory 0 7)
programs_agree_example = programs_agree garbage threads processes refl every_fork sample 7
