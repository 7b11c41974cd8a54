-- ===== src/Polling/Progress/Casting.antt =====
-- Assignment4/q2.c: wherever the threads stand, one more vote can be cast.
use osassignments.Common.{
  ℕ, ◌<◌, ◌≡◌, refl, sym, ap, subst, ◌∙◌, true, Option, none, some, [], ◌∷◌, arith, ==-cases, inl,
  inr,
}
use osassignments.Common.Int.{pos, ◌<ℤ◌}
use osassignments.Common.Family.{how_many-find}
use osassignments.Polling.Booth.{RobotPc, get_voter, take_voter, wait_evm, in_slot, Booth}
use osassignments.Polling.System.{robot, run}
use osassignments.Polling.Occupancy.{on_evm, served}
use osassignments.Polling.Votes.{is_voting, voting}
use osassignments.Polling.Progress.Turns.{BoothInv, run-BoothInv}
use osassignments.Polling.Progress.Offers.{IsIdle, evm_at-Offers}
use osassignments.Polling.Progress.Steps.{
  CastsVote, CastsVote-behind, in_slot-CastsVote, wait_evm-seated, take_voter-waits,
  get_voter-takes, on_evm-in_slot, nobody_votes,
}

module _ (evms robots voters slots : ℕ) (le : 0 < evms) (lr : 0 < robots) (ls : 0 < slots) where
  abbrev Inv : Booth → Type 0
  Inv s = BoothInv evms robots voters slots s

  -- From a free machine on.
  offered-CastsVote :
      (s : Booth)
      → Inv s
      → (i e : ℕ) → i < robots
      → (s.robots i).pc ≡ wait_evm
      → s.free_evm ≡ some e
      → CastsVote s
  offered-CastsVote s inv i e lt h free =
      let (same, there) = wait_evm-seated inv i e lt h free in
      CastsVote-behind (robot i ∷ []) s same
        (in_slot-CastsVote (run-BoothInv (robot i ∷ []) s inv) i lt there)

  -- From a robot that waits on.
  waits-CastsVote :
      (s : Booth)
      → Inv s
      → pos 0 <ℤ s.n_votes_to_cast
      → (i : ℕ) → i < robots
      → (s.robots i).pc ≡ wait_evm
      → (m : Option ℕ) → s.free_evm ≡ m
      → CastsVote s
  waits-CastsVote s inv v i lt h (some e) free = offered-CastsVote s inv i e lt h free
  waits-CastsVote s inv v i lt h none free = elim (==-cases (served robots s 0) 0) [
    | inl (t, e) ↦
        let idle : IsIdle evms robots voters slots s = record {
          inv = inv;
          votes_left = v;
          nobody = e;
          none_free = free;
        } in
        let o = evm_at-Offers evms robots voters slots le ls s idle (s.evm_pcs 0) refl in
        CastsVote-behind o.turns s o.same_votes (
          offered-CastsVote (run o.turns s) (run-BoothInv o.turns s inv) i o.machine lt
            (ap (λ f. (f i).pc) o.same_robots ∙ h) o.offered)
    | inr (t, e) ↦
        let (j, lj, at) = how_many-find (on_evm 0) robots s.robots (omega (arith, e)) in
        in_slot-CastsVote inv j lj (on_evm-in_slot inv j 0 at)
  ]

  -- From a robot that has seen that there are voters on.
  takes-CastsVote :
      (s : Booth)
      → Inv s
      → pos 0 <ℤ s.n_votes_to_cast
      → (i : ℕ) → i < robots
      → (s.robots i).pc ≡ take_voter
      → pos 0 <ℤ s.number_of_unassigned_voters
      → CastsVote s
  takes-CastsVote s inv v i lt h u =
      let (same, there) = take_voter-waits inv i lt h u in
      let t = run (robot i ∷ []) s in
      CastsVote-behind (robot i ∷ []) s same (
        waits-CastsVote t (run-BoothInv (robot i ∷ []) s inv) (subst (λ n. pos 0 <ℤ n) (sym same) v)
          i lt there t.free_evm refl)

  -- From a robot without a voter on.
  free_robot-CastsVote :
      (s : Booth)
      → Inv s
      → pos 0 <ℤ s.n_votes_to_cast
      → (i : ℕ) → i < robots
      → pos 0 <ℤ s.number_of_unassigned_voters
      → (pc : RobotPc) → (s.robots i).pc ≡ pc
      → CastsVote s
  free_robot-CastsVote s inv v i lt u get_voter h =
      let (same, there, left) = get_voter-takes inv i lt h u in
      let t = run (robot i ∷ []) s in
      CastsVote-behind (robot i ∷ []) s same (
        takes-CastsVote t (run-BoothInv (robot i ∷ []) s inv) (subst (λ n. pos 0 <ℤ n) (sym same) v)
          i lt there (subst (λ n. pos 0 <ℤ n) (sym left) u))
  free_robot-CastsVote s inv v i lt u take_voter h = takes-CastsVote s inv v i lt h u
  free_robot-CastsVote s inv v i lt u wait_evm h = waits-CastsVote s inv v i lt h s.free_evm refl
  free_robot-CastsVote s inv v i lt u in_slot h = in_slot-CastsVote inv i lt h
  free_robot-CastsVote s inv v i lt u RobotPc.returned h =
      absurd (omega (arith, u, inv.ends.robot_done i h))
  free_robot-CastsVote s inv v i lt u RobotPc.aborted h = absurd ((inv.room.placed i).runs h)

  -- From a robot with a voter on.
  is_voting-CastsVote :
      (s : Booth)
      → Inv s
      → pos 0 <ℤ s.n_votes_to_cast
      → (i : ℕ) → i < robots
      → is_voting (s.robots i) ≡ true
      → (pc : RobotPc) → (s.robots i).pc ≡ pc
      → CastsVote s
  is_voting-CastsVote s inv v i lt k wait_evm h = waits-CastsVote s inv v i lt h s.free_evm refl
  is_voting-CastsVote s inv v i lt k in_slot h = in_slot-CastsVote inv i lt h
  is_voting-CastsVote s inv v i lt k get_voter h = absurd (ground (arith, k, h))
  is_voting-CastsVote s inv v i lt k take_voter h = absurd (ground (arith, k, h))
  is_voting-CastsVote s inv v i lt k RobotPc.returned h = absurd (ground (arith, k, h))
  is_voting-CastsVote s inv v i lt k RobotPc.aborted h = absurd (ground (arith, k, h))

  -- Wherever the threads stand.
  pub some-CastsVote : (s : Booth) → Inv s → pos 0 <ℤ s.n_votes_to_cast → CastsVote s
  some-CastsVote s inv v = elim (==-cases (voting robots s) 0) [
    | inl (t, e) ↦ free_robot-CastsVote s inv v 0 lr (nobody_votes inv e v) (s.robots 0).pc refl
    | inr (t, e) ↦
        let (i, lt, k) = how_many-find is_voting robots s.robots (omega (arith, e)) in
        is_voting-CastsVote s inv v i lt k (s.robots i).pc refl
  ]
