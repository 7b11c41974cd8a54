-- ===== src/MergeSort/Passes/Copies.antt =====
-- Assignment4/q3_*.c: what a copying loop writes.
use osassignments.Common.{
  ℕ, suc, ◌+◌, ◌-◌, ◌≤◌, ◌<◌, ◌≡◌, refl, sym, true, false, List, [], ◌∷◌, ◌++◌, ltb, arith,
  append_assoc, append-nil,
}
use osassignments.Common.Int.{ℤ}
use osassignments.Common.Family.{put}
use osassignments.Common.Loops.{while_leaves}
use osassignments.Common.Segments.{seg, seg-put_end}
use osassignments.MergeSort.Passes.{Array, Copy, copy_loop, copy_back}

-- Outside of the `n` cells from `lo` on the two arrays agree.
abbrev pub SameOutside : ℕ → ℕ → Array → Array → Type 0
SameOutside lo n f g = (k : ℕ) → (k < lo → f k ≡ g k) × (lo + n ≤ k → f k ≡ g k)

-- `done` cells from `lo` on are written; with the items of `rest` they make up `whole`.
pub record Written (lo done : ℕ) (before now : Array) (rest whole : List ℤ) : Type 0 where
  pub made : seg now lo done ++ rest ≡ whole
  pub kept : SameOutside lo done before now

module _ {lo done : ℕ} {before now : Array} {v : ℤ} {rest whole : List ℤ} where
  -- Writing the next item.
  pub Written-put :
      (at : ℕ)
      → at ≡ lo + done
      → Written lo done before now (v ∷ rest) whole
      → Written lo (suc done) before (put now at v) rest whole
  Written-put at e w = rw e (record {
    made = cc (seg-put_end now lo done v, append_assoc (seg now lo done) (v ∷ []) rest, w.made);
    kept = λ k. ((λ h. ground (arith, w.kept k)), λ h. ground (arith, w.kept k));
  })

pub seg-cons :
    (f : Array) (i stop : ℕ) → i < stop → seg f i (stop - i) ≡ f i ∷ seg f (suc i) (stop - suc i)
unfolding seg
seg-cons f i stop h = let e : stop - i ≡ suc (stop - suc i) = omega arith in rw e

pub seg-empty : (f : Array) (i stop : ℕ) → stop ≤ i → seg f i (stop - i) ≡ []
unfolding seg
seg-empty f i stop h = let e : stop - i ≡ 0 = omega arith in rw e

module _ (lo : ℕ) (before : Array) (whole : List ℤ) where
  module _ (src : Array) (stop total : ℕ) where
    -- The cells of `src` up to `stop` are still to be copied.
    pub record CopyInv (c : Copy) : Type 0 where
      pub done : ℕ
      pub in_range : c.from ≤ stop
      pub place : c.at ≡ lo + done
      pub left : done + (stop - c.from) ≡ total
      pub written : Written lo done before c.out (seg src c.from (stop - c.from)) whole

    copy_round-CopyInv :
        (c : Copy)
        → CopyInv c
        → ltb c.from stop ≡ true
        → CopyInv (record { from = suc c.from; at = suc c.at; out = put c.out c.at (src c.from) })
          × (stop - suc c.from < stop - c.from)
    copy_round-CopyInv c inv h =
        let lt : c.from < stop = ground arith in
        (
          record {
            done = suc inv.done;
            in_range = lt;
            place = omega (arith, inv.place);
            left = omega (arith, inv.left);
            written = Written-put c.at inv.place (rw (seg-cons src c.from stop lt) at inv.written);
          },
          omega arith,
        )

    CopyInv-finish :
        (c : Copy) → CopyInv c → ltb c.from stop ≡ false → Written lo total before c.out [] whole
    CopyInv-finish c inv h =
        let e : stop - c.from ≡ 0 = ground arith in
        let t : inv.done ≡ total = omega (arith, inv.left) in
        rw t at (rw (seg-empty src c.from stop (ground arith)) at inv.written)

    -- The loop copies them all.
    pub copy_loop_lem :
        (c : Copy) → CopyInv c → Written lo total before (copy_loop src stop c).out [] whole
    unfolding copy_loop
    copy_loop_lem c inv =
        let (end, stopped) =
          while_leaves _ _ CopyInv (λ c. stop - c.from) copy_round-CopyInv (suc stop) c inv
            (omega arith) in
        CopyInv-finish _ end stopped

    -- The loop that tests where it writes copies the same cells.
    pub copy_back_lem :
        (last : ℕ) (c : Copy)
        → CopyInv c
        → stop + c.at ≡ last + c.from
        → Written lo total before (copy_back src last c).out [] whole
    unfolding copy_back
    copy_back_lem last c inv e =
        let ((end, e'), stopped) =
          while_leaves (λ c. ltb c.at last) _ (λ c. CopyInv c × (stop + c.at ≡ last + c.from))
            (λ c. last - c.at)
            (λ c (inv, e) h.
              let (next, _) = copy_round-CopyInv c inv (ground (arith, inv.in_range)) in
              ((next, omega arith), ground arith))
            (suc last) c (inv, e) (omega arith) in
        CopyInv-finish _ end (ground (arith, end.in_range))

-- A copy that has nothing left to do.
pub copy_loop_idle : (src : Array) (stop : ℕ) (c : Copy) → stop ≤ c.from → copy_loop src stop c ≡ c
unfolding copy_loop
copy_loop_idle src stop c h = ground arith

-- Before the first write.
pub Written-start :
    (lo : ℕ) (before : Array) (whole : List ℤ) → Written lo 0 before before whole whole
unfolding seg
Written-start lo before whole = record { made = refl; kept = λ k. ((λ h. refl), λ h. refl) }

-- What was written to `tmp` is copied to the same or another place in `data`.
pub copied :
    (tmp_lo total : ℕ) (before tmp : Array) (whole : List ℤ)
    → Written tmp_lo total before tmp [] whole
    → (lo : ℕ) (list : Array)
    → CopyInv lo list whole tmp
        (tmp_lo + total)
        total
        (record { from = tmp_lo; at = lo; out = list })
copied tmp_lo total before tmp whole w lo list = record {
  done = 0;
  in_range = omega arith;
  place = omega arith;
  left = omega arith;
  written =
      let e : tmp_lo + total - tmp_lo ≡ total = omega arith in
      rw (e, sym (append-nil (seg tmp tmp_lo total)), w.made) (Written-start lo list whole);
}
