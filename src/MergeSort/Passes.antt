-- ===== src/MergeSort/Passes.antt =====
-- Assignment4/q3_normal.c, q3_forked.c and q3_threaded.c: the loops of a merge.
--
-- An array is a function from its indices. A loop is a `while` on fuel over its variables. What a
-- loop reads and writes outside of the stretch that it works on cannot change the results: the
-- theorems give the result in terms of that stretch alone, and say that the other cells are kept.
pub mod Copies
pub mod Merges
use osassignments.Common.{
  ℕ, suc, ◌+◌, ◌-◌, ◌≤◌, ◌<◌, ◌≡◌, refl, ap, Bool, true, false, ◌&&◌, List, [], ◌∷◌, ◌++◌, ltb, leb,
  if◌then◌else◌, arith, append_assoc, append-nil, Bool-cases, inl, inr,
}
use osassignments.Common.Int.{ℤ}
use osassignments.Common.Family.{put}
use osassignments.Common.Loops.{while}
use osassignments.Common.Segments.{seg, seg-put_end}
use osassignments.MergeSort.Ordered.{merge_lists, merge_lists-nil}

abbrev pub Array : Type 0
Array = ℕ → ℤ

-- The variables of a copying loop: where it reads, where it writes, and the array written to.
pub record Copy : Type 0 where
  pub from : ℕ
  pub at : ℕ
  pub out : Array

-- `while (from <= last) out[at++] = src[from++];`, with `stop` for `last + 1`.
unfoldable pub copy_loop : Array → ℕ → Copy → Copy
unfolding while
copy_loop src stop c =
    while (λ c. ltb c.from stop)
      (λ c. record { from = suc c.from; at = suc c.at; out = put c.out c.at (src c.from) })
      (suc stop) c

-- `while (at <= last) out[at++] = src[from++];`, which tests the index that it writes to.
unfoldable pub copy_back : Array → ℕ → Copy → Copy
unfolding while
copy_back src stop c =
    while (λ c. ltb c.at stop)
      (λ c. record { from = suc c.from; at = suc c.at; out = put c.out c.at (src c.from) })
      (suc stop) c

-- The variables of a merging loop.
pub record Merge : Type 0 where
  pub i : ℕ
  pub j : ℕ
  pub at : ℕ
  pub out : Array

-- One round: the smaller of `a[i]` and `b[j]`, by the test `left_first`, goes to `out[at]`.
unfoldable pub merge_round : (ℤ → ℤ → Bool) → Array → Array → Merge → Merge
merge_round left_first a b m =
    if left_first (a m.i) (b m.j)
    then record { i = suc m.i; j = m.j; at = suc m.at; out = put m.out m.at (a m.i) }
    else record { i = m.i; j = suc m.j; at = suc m.at; out = put m.out m.at (b m.j) }

-- `while (i <= i_last && j <= j_last)`, with `i_stop` and `j_stop` one past the last indices.
unfoldable pub merge_loop : (ℤ → ℤ → Bool) → Array → Array → ℕ → ℕ → Merge → Merge
unfolding while merge_round
merge_loop left_first a b i_stop j_stop m =
    while (λ m. ltb m.i i_stop && ltb m.j j_stop) (merge_round left_first a b)
      (suc (i_stop + j_stop)) m
