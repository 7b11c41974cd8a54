-- ===== src/MergeSort/Forked/MergeLaws.antt =====
-- Assignment4/q3_forked.c: what `merge` writes.
use osassignments.Common.{
  ℕ, suc, ◌+◌, ◌-◌, ◌≤◌, ◌≡◌, sym, ◌∙◌, ltb, [], arith, Bool-cases, inl, inr, append-nil,
}
use osassignments.Common.Int.{ltb_ℤ}
use osassignments.Common.Segments.{seg}
use osassignments.MergeSort.Ordered.{merge_lists}
use osassignments.MergeSort.Passes.{Array, Copy, copy_loop, Merge}
use osassignments.MergeSort.Passes.Copies.{Written, Written-start, copy_loop_lem, copy_loop_idle}
use osassignments.MergeSort.Passes.Merges.{merged, merged-MergeInv, drain_left, drain_right}
use osassignments.MergeSort.Forked.{merge}

-- The copy of a stretch to a local array.
local_copy :
    (sh local : Array) (from stop : ℕ)
    → from ≤ stop
    → seg (copy_loop sh stop (record { from = from; at = 0; out = local })).out 0 (stop - from)
      ≡ seg sh from (stop - from)
local_copy sh local from stop le =
    let w = copy_loop_lem 0 local (seg sh from (stop - from)) sh stop (stop - from) _ (record {
      done = 0;
      in_range = le;
      place = omega arith;
      left = omega arith;
      written = Written-start 0 local (seg sh from (stop - from));
    }) in
    sym (append-nil _) ∙ w.made

-- Both of the last loops of `merge` run; one of them has nothing to do.
module _ (sh sh_1 sh_2 : Array) (left low high : ℕ) where
  abbrev looped : Merge
  looped = merged left sh ltb_ℤ sh_1 sh_2 0 low 0 high (omega arith) (omega arith)

  abbrev left_copied : Copy
  left_copied = copy_loop sh_1 low (record { from = looped.i; at = looped.at; out = looped.out })

  drained :
      Written left
        ((low - 0) + (high - 0))
        sh
        (copy_loop sh_2 high
          (record { from = looped.j; at = left_copied.at; out = left_copied.out })).out
        []
        (merge_lists ltb_ℤ (seg sh_1 0 (low - 0)) (seg sh_2 0 (high - 0)))
  drained =
      let (inv, stopped) =
        merged-MergeInv left sh ltb_ℤ sh_1 sh_2 0 low 0 high (omega arith) (omega arith) in
      elim (Bool-cases (ltb looped.i low)) [
        | inl e ↦
            rw
              (copy_loop_idle sh_2 high
                (record { from = looped.j; at = left_copied.at; out = left_copied.out })
                (ground arith))
              (copy_loop_lem left sh _ sh_1 low _ _
                (drain_left left sh _ ltb_ℤ sh_1 sh_2 low high _ looped inv (ground arith)))
        | inr e ↦
            rw
              (copy_loop_idle sh_1 low
                (record { from = looped.i; at = looped.at; out = looped.out }) (ground arith))
              (copy_loop_lem left sh _ sh_2 high _ _
                (drain_right left sh _ ltb_ℤ sh_1 sh_2 low high _ looped inv (ground arith)))
      ]

pub merge-Written :
    (local_1 local_2 : Array) (left mid right : ℕ) (sh : Array)
    → left ≤ mid
    → mid ≤ right
    → Written left
        ((suc mid - left) + (suc right - suc mid))
        sh
        (merge local_1 local_2 left mid right sh)
        []
        (merge_lists ltb_ℤ (seg sh left (suc mid - left)) (seg sh (suc mid) (suc right - suc mid)))
unfolding merge
merge-Written local_1 local_2 left mid right sh lm mr =
    let low : ℕ = mid - left + 1 in
    let high : ℕ = right - mid in
    let sh_1 : Array =
      (copy_loop sh (suc mid) (record { from = left; at = 0; out = local_1 })).out in
    let sh_2 : Array =
      (copy_loop sh (suc right) (record { from = suc mid; at = 0; out = local_2 })).out in
    let low_lem : low - 0 ≡ suc mid - left = omega arith in
    let high_lem : high - 0 ≡ suc right - suc mid = omega arith in
    rw
      (
        low_lem,
        high_lem,
        local_copy sh local_1 left (suc mid) (omega arith),
        local_copy sh local_2 (suc mid) (suc right) (omega arith),
      )
      at (drained sh sh_1 sh_2 left low high)
