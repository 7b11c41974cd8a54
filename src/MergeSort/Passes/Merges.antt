-- ===== src/MergeSort/Passes/Merges.antt =====
-- Assignment4/q3_*.c: what a merging loop writes.
use osassignments.Common.{
  ℕ, suc, ◌+◌, ◌-◌, ◌≤◌, ◌<◌, ◌≡◌, refl, Bool, true, false, ◌&&◌, List, [], ◌∷◌, ltb, if◌then◌else◌,
  arith, Bool-cases, inl, inr,
}
use osassignments.Common.Int.{ℤ}
use osassignments.Common.Loops.{while_leaves}
use osassignments.Common.Segments.{seg}
use osassignments.MergeSort.Ordered.{merge_lists, merge_lists-nil}
use osassignments.MergeSort.Passes.{Array, copy_loop, Merge, merge_round, merge_loop}
use osassignments.MergeSort.Passes.Copies.{
  Written, Written-put, Written-start, CopyInv, copy_loop_lem, seg-cons, seg-empty,
}

module _ (lo : ℕ) (before : Array) (whole : List ℤ) where
  module _ (p : ℤ → ℤ → Bool) (a b : Array) (i_stop j_stop total : ℕ) where
    -- What is still to be merged.
    abbrev pub to_merge : Merge → List ℤ
    to_merge m = merge_lists p (seg a m.i (i_stop - m.i)) (seg b m.j (j_stop - m.j))

    pub record MergeInv (m : Merge) : Type 0 where
      pub done : ℕ
      pub i_in_range : m.i ≤ i_stop
      j_in_range : m.j ≤ j_stop
      pub place : m.at ≡ lo + done
      pub left : done + (i_stop - m.i) + (j_stop - m.j) ≡ total
      pub written : Written lo done before m.out (to_merge m) whole

    to_merge_left :
        (m : Merge)
        → m.i < i_stop
        → m.j < j_stop
        → p (a m.i) (b m.j) ≡ true
        → to_merge m
          ≡ a m.i ∷ merge_lists p (seg a (suc m.i) (i_stop - suc m.i)) (seg b m.j (j_stop - m.j))
    unfolding merge_lists
    to_merge_left m i_lt j_lt e =
        rw (seg-cons a m.i i_stop i_lt, seg-cons b m.j j_stop j_lt) (ground arith)

    to_merge_right :
        (m : Merge)
        → m.i < i_stop
        → m.j < j_stop
        → p (a m.i) (b m.j) ≡ false
        → to_merge m
          ≡ b m.j ∷ merge_lists p (seg a m.i (i_stop - m.i)) (seg b (suc m.j) (j_stop - suc m.j))
    unfolding merge_lists
    to_merge_right m i_lt j_lt e =
        rw (seg-cons a m.i i_stop i_lt, seg-cons b m.j j_stop j_lt) (ground arith)

    merge_round-MergeInv :
        (m : Merge)
        → MergeInv m
        → (ltb m.i i_stop && ltb m.j j_stop) ≡ true
        → MergeInv (merge_round p a b m)
          × (i_stop + j_stop - (merge_round p a b m).i - (merge_round p a b m).j
              < i_stop + j_stop - m.i - m.j)
    unfolding merge_round
    merge_round-MergeInv m inv h =
        let i_lt : m.i < i_stop = ground arith in
        let j_lt : m.j < j_stop = ground arith in
        elim (Bool-cases (p (a m.i) (b m.j))) [
          | inl e ↦ simp e (
            record {
              done = suc inv.done;
              i_in_range = i_lt;
              j_in_range = inv.j_in_range;
              place = omega (arith, inv.place);
              left = omega (arith, inv.left);
              written =
                  Written-put m.at inv.place (rw (to_merge_left m i_lt j_lt e) at inv.written);
            },
            omega arith,
          )
          | inr e ↦ simp e (
            record {
              done = suc inv.done;
              i_in_range = inv.i_in_range;
              j_in_range = j_lt;
              place = omega (arith, inv.place);
              left = omega (arith, inv.left);
              written =
                  Written-put m.at inv.place (rw (to_merge_right m i_lt j_lt e) at inv.written);
            },
            omega arith,
          )
        ]

    -- The loop stops where one of the two stretches is used up.
    merge_loop_lem :
        (m : Merge)
        → MergeInv m
        → MergeInv (merge_loop p a b i_stop j_stop m)
          × ((ltb (merge_loop p a b i_stop j_stop m).i i_stop
                && ltb (merge_loop p a b i_stop j_stop m).j j_stop)
              ≡ false)
    unfolding merge_loop
    merge_loop_lem m inv =
        while_leaves _ _ MergeInv (λ m. i_stop + j_stop - m.i - m.j) merge_round-MergeInv
          (suc (i_stop + j_stop)) m inv (omega arith)

    module _ (m : Merge) (inv : MergeInv m) where
      -- Where the left stretch is used up, the rest of the right one is to be copied.
      pub drain_right :
          i_stop ≤ m.i
          → CopyInv lo before whole b j_stop total (record { from = m.j; at = m.at; out = m.out })
      unfolding merge_lists
      drain_right h = record {
        done = inv.done;
        in_range = inv.j_in_range;
        place = inv.place;
        left = omega (arith, inv.left);
        written = rw (seg-empty a m.i i_stop h) at inv.written;
      }

      -- Where the right stretch is used up, the rest of the left one is to be copied.
      pub drain_left :
          j_stop ≤ m.j
          → CopyInv lo before whole a i_stop total (record { from = m.i; at = m.at; out = m.out })
      drain_left h = record {
        done = inv.done;
        in_range = inv.i_in_range;
        place = inv.place;
        left = omega (arith, inv.left);
        written = rw (seg-empty b m.j j_stop h, merge_lists-nil) at inv.written;
      }

-- The merging loop from the starts of the two stretches, followed by a copy of what is left of
-- one of them: by a test that says truly whether the left one is used up.
module _ (lo : ℕ) (before : Array) (p : ℤ → ℤ → Bool) (a b : Array) (i i_stop j j_stop : ℕ)
    (i_le : i ≤ i_stop) (j_le : j ≤ j_stop) where
  abbrev pub merged : Merge
  merged = merge_loop p a b i_stop j_stop (record { i = i; j = j; at = lo; out = before })

  abbrev pub whole : List ℤ
  whole = merge_lists p (seg a i (i_stop - i)) (seg b j (j_stop - j))

  abbrev pub total : ℕ
  total = (i_stop - i) + (j_stop - j)

  pub merged-MergeInv :
      MergeInv lo before whole p a b i_stop j_stop total merged
      × ((ltb merged.i i_stop && ltb merged.j j_stop) ≡ false)
  merged-MergeInv = merge_loop_lem lo before whole p a b i_stop j_stop total _ (record {
    done = 0;
    i_in_range = i_le;
    j_in_range = j_le;
    place = omega arith;
    left = omega arith;
    written = Written-start lo before whole;
  })

  pub merged_rest :
      (used_up : Bool)
      → (used_up ≡ true → i_stop ≤ merged.i)
      → (used_up ≡ false → merged.i < i_stop)
      → Written lo total before
          (if used_up
            then copy_loop b j_stop (record { from = merged.j; at = merged.at; out = merged.out })
            else copy_loop a i_stop
                (record { from = merged.i; at = merged.at; out = merged.out })).out
          []
          whole
  merged_rest true up not_up =
      let (inv, stopped) = merged-MergeInv in
      copy_loop_lem lo before whole b j_stop total _
        (drain_right lo before whole p a b i_stop j_stop total merged inv (up refl))
  merged_rest false up not_up =
      let (inv, stopped) = merged-MergeInv in
      let lt = not_up refl in
      copy_loop_lem lo before whole a i_stop total _
        (drain_left lo before whole p a b i_stop j_stop total merged inv (ground arith))
