-- ===== src/MergeSort/Forked.antt =====
-- Assignment4/q3_forked.c: merge sort over shared memory with a child process for each left half.
--
-- The parent waits for the child before it goes on, so a process and its child never run at once.
-- Whether `fork` succeeds may differ at each place of the recursion, which a list of Booleans
-- names (`true` for the child's half). `shmget` and `shmat` are taken to succeed. The values of
-- the cells are integers; an addition that overflows an int is not modelled.
mod MergeLaws
mod Selection
pub mod Laws
use osassignments.Common.{
  ℕ, zero, suc, ◌+◌, ◌-◌, ◌/◌, ◌≤◌, ◌<◌, ltb, Bool, true, false, if◌then◌else◌, List, [], ◌∷◌,
}
use osassignments.Common.Int.{ℤ, ltb_ℤ, ◌+ℤ◌, ◌-ℤ◌}
use osassignments.Common.Family.{put}
use osassignments.MergeSort.Passes.{Array, Copy, copy_loop, Merge, merge_loop}

-- The inner loop of the short branch: the index of a least cell among `min_idx` and the `rounds`
-- cells from `p2` on.
unfoldable pub find_min : Array → ℕ → ℕ → ℕ → ℕ
find_min sh zero p2 min_idx = min_idx
find_min sh (suc rounds) p2 min_idx =
    find_min sh rounds (suc p2) (if ltb_ℤ (sh p2) (sh min_idx) then p2 else min_idx)

-- `a[m] = a[m] + a[p] - (a[p] = a[m])`, its operands taken from left to right: the sum is read
-- before the inner assignment, and the value of that is the old `a[m]`.
unfoldable pub swap : Array → ℕ → ℕ → Array
swap sh p1 min_idx =
    let sum = sh min_idx +ℤ sh p1 in
    let inner = put sh p1 (sh min_idx) in put inner min_idx (sum -ℤ sh min_idx)

-- The short branch, with `rounds` for `right - p1`.
unfoldable pub selection : ℕ → ℕ → Array → Array
unfolding find_min swap
selection zero p1 sh = sh
selection (suc rounds) p1 sh =
    selection rounds (suc p1) (swap sh p1 (find_min sh (suc rounds) (suc p1) p1))

-- `merge`, with what the two local arrays hold at first.
unfoldable pub merge : Array → Array → ℕ → ℕ → ℕ → Array → Array
merge local_1 local_2 left mid right sh =
    let low = mid - left + 1 in
    let high = right - mid in
    let sh_1 = (copy_loop sh (suc mid) (record { from = left; at = 0; out = local_1 })).out in
    let sh_2 = (copy_loop sh (suc right) (record { from = suc mid; at = 0; out = local_2 })).out in
    let m = merge_loop ltb_ℤ sh_1 sh_2 low high (record { i = 0; j = 0; at = left; out = sh }) in
    let c = copy_loop sh_1 low (record { from = m.i; at = m.at; out = m.out }) in
    (copy_loop sh_2 high (record { from = m.j; at = c.at; out = c.out })).out

-- The shared array when a call ends, and whether the process ended in it by `exit(1)`.
pub record Outcome : Type 0 where
  pub memory : Array
  pub exited : Bool

-- What the program takes from the system: where `fork` succeeds, and what local arrays hold.
pub record Platform : Type 0 where
  pub forks : List Bool → Bool
  pub locals : ℕ → ℕ → Array

module _ (os : Platform) where
  -- The parent's part after the child has ended, however it ended: `wait(NULL)` drops its status.
  -- `sort_right` is the recursive call of the parent.
  unfoldable pub after_child : ℕ → ℕ → ℕ → (Array → Outcome) → Outcome → Outcome
  unfolding merge
  after_child left mid right sort_right child =
      let own = sort_right child.memory in
      if own.exited then own else record {
        memory = merge (os.locals left mid) (os.locals (suc mid) right) left mid right own.memory;
        exited = false;
      }

  -- `merge_sort`, with `fuel` above the depth of the recursion.
  unfoldable pub merge_sort : ℕ → List Bool → ℕ → ℕ → Array → Outcome
  unfolding selection after_child
  merge_sort zero place left right sh = record { memory = sh; exited = false }
  merge_sort (suc fuel) place left right sh =
      let mid = left + (right - left) / 2 in
      let split =
        let child = merge_sort fuel (true ∷ place) left mid sh in
        let both =
          after_child left mid right (λ a. merge_sort fuel (false ∷ place) (suc mid) right a)
            child in
        if os.forks place then both else record { memory = sh; exited = true } in
      if ltb (right - left) 2
      then record { memory = selection (right - left) left sh; exited = false }
      else split

  -- The sort that `main` asks for. For an empty array the bounds are 0 and -1, which is the short
  -- branch with no rounds.
  unfoldable pub sort_all : Array → ℕ → Outcome
  unfolding merge_sort
  sort_all sh zero = record { memory = sh; exited = false }
  sort_all sh (suc last) = merge_sort (suc last) [] 0 last sh
