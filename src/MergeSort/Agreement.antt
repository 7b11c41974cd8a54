-- ===== src/MergeSort/Agreement.antt =====
-- Assignment4/q3_normal.c, q3_forked.c and q3_threaded.c: the three programs agree.
use osassignments.Common.{ℕ, ◌≡◌, Bool, true, some, List, []}
use osassignments.Common.Segments.{seg}
use osassignments.MergeSort.Passes.{Array}
use osassignments.MergeSort.Stretch.{Sorts-unique}
use osassignments.MergeSort.Normal
use osassignments.MergeSort.Normal.Laws.{sort_all-Sorts}
use osassignments.MergeSort.Threaded
use osassignments.MergeSort.Threaded.Laws.{sort_all-Sorts_threaded}
use osassignments.MergeSort.Forked
use osassignments.MergeSort.Forked.Laws.{sort_all-Sorts_forked}

-- If the first thread can be created, and every fork succeeds, the recursive program, the threaded one
-- and the forked one end with the same cells, on every array.
pub programs_agree :
    (temp : ℕ → ℕ → Array) (threads : Threaded.Platform) (processes : Forked.Platform)
    → threads.creates [] ≡ true
    → ((place : List Bool) → processes.forks place ≡ true)
    → (array : Array) (size : ℕ)
    → ((sorted : Array) × (Threaded.sort_all threads array size ≡ some sorted)
        × (seg (Normal.sort_all temp array size) 0 size ≡ seg sorted 0 size))
      × (seg (Normal.sort_all temp array size) 0 size
          ≡ seg (Forked.sort_all processes array size).memory 0 size)
programs_agree temp threads processes first all_fork array size =
    let normal = sort_all-Sorts temp array size in
    let (sorted, ends, sorts) = sort_all-Sorts_threaded threads array size first in
    (
      (sorted, ends, Sorts-unique 0 size array _ _ normal sorts),
      Sorts-unique 0 size array _ _ normal (sort_all-Sorts_forked processes all_fork array size).0,
    )
