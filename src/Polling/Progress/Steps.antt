-- ===== src/Polling/Progress/Steps.antt =====
-- Assignment4/q2.c: the steps of a robot on the way to its vote.
use osassignments.Common.{
  ℕ, ◌<◌, ◌≡◌, refl, ap, ◌∙◌, true, Option, none, some, List, [], ◌∷◌, ◌++◌, arith,
}
use osassignments.Common.Int.{pos, ◌-ℤ◌, ◌<ℤ◌, ◌+ℤ◌}
use osassignments.Polling.Booth.{
  get_voter, take_voter, wait_evm, in_slot, Booth, robot_at, voter_in_slot, leave_slot,
  voter_wait_for_evm, take_slot, booth_get_voter_test, booth_get_voter_take,
}
use osassignments.Polling.System.{Thread, robot, run}
use osassignments.Polling.Occupancy.{on_evm}
use osassignments.Polling.Votes.{voting}
use osassignments.Polling.Progress.Turns.{BoothInv, run-append, run-robot}

-- One more vote can be cast.
pub record CastsVote (s : Booth) : Type 0 where
  pub turns : List Thread
  pub cast : (run turns s).n_votes_to_cast ≡ s.n_votes_to_cast -ℤ pos 1

-- It can be cast behind turns that cast none.
pub CastsVote-behind :
    (ts : List Thread) (s : Booth)
    → (run ts s).n_votes_to_cast ≡ s.n_votes_to_cast
    → CastsVote (run ts s)
    → CastsVote s
CastsVote-behind ts s e c = record {
  turns = ts ++ c.turns;
  cast = ap (λ t. t.n_votes_to_cast) (run-append ts c.turns s) ∙ (c.cast ∙ ap (λ v. v -ℤ pos 1) e);
}

module _ {evms robots voters slots : ℕ} where
  module _ {s : Booth} (inv : BoothInv evms robots voters slots s) where
    open inv use {room, votes, ends}

    -- A robot in a slot casts a vote.
    pub in_slot-CastsVote : (i : ℕ) → i < robots → (s.robots i).pc ≡ in_slot → CastsVote s
    unfolding robot_at voter_in_slot leave_slot
    in_slot-CastsVote i lt e = go (s.robots i).assigned_evm refl
      where
        go : (m : Option ℕ) → (s.robots i).assigned_evm ≡ m → CastsVote s
        go none h = absurd ((room.placed i).seated e h)
        go (some m) h = record {
          turns = robot i ∷ [];
          cast = ap (λ t. t.n_votes_to_cast) (run-robot inv i lt in_slot e) ∙ ground (arith, h);
        }

    -- A robot that waits is given a slot while a machine is free.
    pub wait_evm-seated :
        (i e : ℕ)
        → i < robots
        → (s.robots i).pc ≡ wait_evm
        → s.free_evm ≡ some e
        → let t = run (robot i ∷ []) s in
          (t.n_votes_to_cast ≡ s.n_votes_to_cast) × ((t.robots i).pc ≡ in_slot)
    unfolding robot_at voter_wait_for_evm take_slot
    wait_evm-seated i e lt h free =
        let eq = run-robot inv i lt wait_evm h in
        (
          ap (λ t. t.n_votes_to_cast) eq
              ∙ ground (arith, room.occupied e, room.free_room e, room.slots_kept e),
          ap (λ t. (t.robots i).pc) eq
              ∙ ground (arith, room.occupied e, room.free_room e, room.slots_kept e),
        )

    -- A robot takes its voter.
    pub take_voter-waits :
        (i : ℕ)
        → i < robots
        → (s.robots i).pc ≡ take_voter
        → pos 0 <ℤ s.number_of_unassigned_voters
        → let t = run (robot i ∷ []) s in
          (t.n_votes_to_cast ≡ s.n_votes_to_cast) × ((t.robots i).pc ≡ wait_evm)
    unfolding robot_at booth_get_voter_take
    take_voter-waits i lt h u =
        let eq = run-robot inv i lt take_voter h in
        (
          ap (λ t. t.n_votes_to_cast) eq ∙ ground arith,
          ap (λ t. (t.robots i).pc) eq ∙ ground (arith, u),
        )

    -- A robot asks for a voter while there are some.
    pub get_voter-takes :
        (i : ℕ)
        → i < robots
        → (s.robots i).pc ≡ get_voter
        → pos 0 <ℤ s.number_of_unassigned_voters
        → let t = run (robot i ∷ []) s in
          (t.n_votes_to_cast ≡ s.n_votes_to_cast)
          × ((t.robots i).pc ≡ take_voter)
          × (t.number_of_unassigned_voters ≡ s.number_of_unassigned_voters)
    unfolding robot_at booth_get_voter_test
    get_voter-takes i lt h u =
        let eq = run-robot inv i lt get_voter h in
        (
          ap (λ t. t.n_votes_to_cast) eq ∙ ground (arith, u),
          ap (λ t. (t.robots i).pc) eq ∙ ground (arith, u),
          ap (λ t. t.number_of_unassigned_voters) eq ∙ ground (arith, u),
        )

    -- A robot at a machine is in a slot.
    pub on_evm-in_slot : (i e : ℕ) → on_evm e (s.robots i) ≡ true → (s.robots i).pc ≡ in_slot
    on_evm-in_slot i e h = ground (arith, (room.placed i).unseated)

    -- If nobody is voting, voters are left.
    pub nobody_votes :
        voting robots s ≡ 0 → pos 0 <ℤ s.n_votes_to_cast → pos 0 <ℤ s.number_of_unassigned_voters
    unfolding ◌+ℤ◌
    nobody_votes h v = ground (arith, votes.counted)
