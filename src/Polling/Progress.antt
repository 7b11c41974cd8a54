-- ===== src/Polling/Progress.antt =====
-- Assignment4/q2.c: from every state that a schedule reaches the voting can come to its end.
use osassignments.Common.{
  ℕ, zero, suc, ◌+◌, ◌≤◌, ◌<◌, ◌≡◌, ◌≢◌, refl, sym, ap, subst, ◌∙◌, Bool, true, false, Option, none,
  some, List, [], ◌∷◌, ◌++◌, arith, ==-cases, Bool-cases, inl, inr,
}
use osassignments.Common.Int.{ℤ, pos, ◌-ℤ◌, ◌<ℤ◌, ◌≤ℤ◌, ◌+ℤ◌}
use osassignments.Common.Family.{how_many-find, how_many-le}
use osassignments.Polling.Booth.{
  Robot, RobotPc, EvmPc, get_voter, take_voter, wait_evm, in_slot, test_votes, assert_low,
  assert_high, test_slots, polling_ready, Booth, booth_new, robot_fn, robot_at, evm_fn, evm_at,
  voter_in_slot, leave_slot, voter_wait_for_evm, take_slot, booth_get_voter_test,
  booth_get_voter_take, polling_ready_evm,
}
use osassignments.Polling.System.{Thread, robot, evm, turn, run, main_waits}
use osassignments.Polling.Schedules.{run_keeps}
use osassignments.Polling.Occupancy.{
  on_evm, served, SlotsInv, booth_new-SlotsInv, robot_fn-SlotsInv, evm_fn-SlotsInv,
}
use osassignments.Polling.Votes.{
  is_voting, voting, VotesInv, booth_new-VotesInv, robot_fn-VotesInv, evm_fn-VotesInv,
}
use osassignments.Polling.Ends.{EndsInv, booth_new-EndsInv, robot_fn-EndsInv, evm_fn-EndsInv}
use osassignments.Polling.Progress.Turns.{BoothInv, run-append, run-BoothInv, run-robot, run-evm}
use osassignments.Polling.Progress.Offers.{IsIdle, evm_at-Offers}
use osassignments.Polling.Progress.Casting.{some-CastsVote}
use osassignments.Polling.Progress.Steps.{CastsVote}
mod Turns
mod Offers
mod Steps
mod Casting

waits-pos : (s : Booth) → main_waits s ≡ true → pos 0 <ℤ s.n_votes_to_cast
unfolding main_waits
waits-pos s e = ground (arith, e)

waits_not-nonpos : (s : Booth) → main_waits s ≡ false → s.n_votes_to_cast ≤ℤ pos 0
unfolding main_waits
waits_not-nonpos s e = ground (arith, e)

nonpos-waits_not : (s : Booth) → s.n_votes_to_cast ≤ℤ pos 0 → main_waits s ≡ false
unfolding main_waits
nonpos-waits_not s h = ground (arith, h)

one_less : (v w : ℤ) (n : ℕ) → v ≡ w -ℤ pos 1 → w ≤ℤ pos (suc n) → v ≤ℤ pos n
unfolding ◌-ℤ◌
one_less v w n e h = ground (arith, e, h)

-- At most all voters and one for each robot.
votes_to_cast-le :
    (evms robots voters slots : ℕ) (s : Booth)
    → BoothInv evms robots voters slots s
    → s.n_votes_to_cast ≤ℤ pos (voters + robots)
unfolding ◌+ℤ◌
votes_to_cast-le evms robots voters slots s inv =
    ground
      (arith, inv.votes.counted, inv.votes.unassigned-le, how_many-le is_voting robots s.robots)

module _ (evms robots voters slots : ℕ) (le : 0 < evms) (lr : 0 < robots) (ls : 0 < slots) where
  -- With so many votes to cast at most.
  casts_all :
      (fuel : ℕ) (s : Booth)
      → BoothInv evms robots voters slots s
      → s.n_votes_to_cast ≤ℤ pos fuel
      → (ts : List Thread) × ((run ts s).n_votes_to_cast ≤ℤ pos 0)
  unfolding run
  casts_all zero s inv h = ([], h)
  casts_all (suc fuel) s inv h = elim (Bool-cases (main_waits s)) [
    | inl e ↦
        let c = some-CastsVote evms robots voters slots le lr ls s inv (waits-pos s e) in
        let (us, done) =
          casts_all fuel (run c.turns s) (run-BoothInv c.turns s inv)
            (one_less (run c.turns s).n_votes_to_cast s.n_votes_to_cast fuel c.cast h) in
        (
          c.turns ++ us,
          subst (λ t. t.n_votes_to_cast ≤ℤ pos 0) (sym (run-append c.turns us s)) done,
        )
    | inr e ↦ ([], waits_not-nonpos s e)
  ]

  -- As long as there is a robot, and a machine with a slot, every state that a schedule reaches can
  -- still come to its end: some further schedule makes main stop waiting.
  pub voting_ends :
      (ts : List Thread)
      → (more : List Thread) × (main_waits (run more (run ts (booth_new evms robots voters slots)))
          ≡ false)
  voting_ends ts =
      let s = run ts (booth_new evms robots voters slots) in
      let inv = run-BoothInv ts (booth_new evms robots voters slots) (record {
        room = booth_new-SlotsInv evms robots voters slots;
        votes = booth_new-VotesInv evms robots voters slots;
        ends = booth_new-EndsInv evms robots voters slots;
      }) in
      let (more, done) =
        casts_all (voters + robots) s inv (votes_to_cast-le evms robots voters slots s inv) in
      (more, nonpos-waits_not (run more s) done)
