-- ===== src/Polling/Safety.antt =====
-- Assignment4/q2.c: what holds at the booth in every state that any schedule of the threads reaches.
use osassignments.Common.{ℕ, ◌<◌, ◌≤◌, ◌≡◌, ◌≢◌, true, false, some, arith, refl, List}
use osassignments.Common.Int.{pos, negsuc, ◌+ℤ◌, ◌≤ℤ◌, ◌<ℤ◌}
use osassignments.Polling.Booth.{RobotPc, EvmPc, Booth, booth_new}
use osassignments.Polling.System.{Thread, run, main_waits}
use osassignments.Polling.Schedules.{run_keeps}
use osassignments.Polling.Race.{one_robot_in_range}
use osassignments.Polling.Occupancy.{
  served, SlotsInv, booth_new-SlotsInv, robot_fn-SlotsInv, evm_fn-SlotsInv,
}
use osassignments.Polling.Votes.{
  is_voting, voting, VotesInv, booth_new-VotesInv, robot_fn-VotesInv, evm_fn-VotesInv,
}

module _ (evms robots voters slots : ℕ) (ts : List Thread) where
  -- The state after the schedule.
  abbrev pub reached : Booth
  reached = run ts (booth_new evms robots voters slots)

  reached_inv : SlotsInv robots slots reached × VotesInv robots voters reached
  unfolding booth_new
  reached_inv =
      run_keeps (λ s. SlotsInv robots slots s × VotesInv robots voters s) robots
        (λ s i lt (room, votes). (robot_fn-SlotsInv room i lt, robot_fn-VotesInv votes i room lt))
        (λ s e (room, votes). (evm_fn-SlotsInv room e, evm_fn-VotesInv votes e)) ts _ refl
        (booth_new-SlotsInv evms robots voters slots, booth_new-VotesInv evms robots voters slots)

  -- No assertion of `evm_fn`, `voter_wait_for_evm` or `voter_in_slot` fails, whatever the schedule.
  pub assertions_hold :
      ((i : ℕ) → (reached.robots i).pc ≢ RobotPc.aborted)
      × ((e : ℕ) → reached.evm_pcs e ≢ EvmPc.aborted)
  assertions_hold = let (room, _) = reached_inv in (λ i. (room.placed i).runs, room.evms_run)

  -- The occupation of a machine is the number of robots that are in its slots, which is at most
  -- the number of its slots; and the machine that is offered as free has a slot left.
  pub occupied-eq-served :
      (e : ℕ)
      → ((reached.evms e).number_occupied ≡ pos (served robots reached e))
        × (served robots reached e ≤ slots)
        × (reached.free_evm ≡ some e → served robots reached e < slots)
  occupied-eq-served e =
      let (room, _) = reached_inv in (room.occupied e, room.room e, room.free_room e)

  -- No two robots hold the same voter, and every voter that a robot holds has been handed out:
  -- it lies above the counter of voters, and between 0 and the number of voters.
  pub voters_distinct :
      ((i j : ℕ)
        → i ≢ j
        → is_voting (reached.robots i) ≡ true
        → is_voting (reached.robots j) ≡ true
        → (reached.robots i).voter_id ≢ (reached.robots j).voter_id)
      × ((i : ℕ)
          → is_voting (reached.robots i) ≡ true
          → (reached.number_of_unassigned_voters <ℤ (reached.robots i).voter_id)
            × (pos 0 ≤ℤ (reached.robots i).voter_id)
            × ((reached.robots i).voter_id ≤ℤ pos voters))
  voters_distinct = let (_, votes) = reached_inv in (votes.distinct, votes.issued)

  -- The counter of votes never falls below -1: at most one vote too many is cast.
  votes_bounded : negsuc 0 ≤ℤ reached.n_votes_to_cast
  unfolding ◌+ℤ◌
  votes_bounded = let (_, votes) = reached_inv in ground (arith, votes.counted)

  -- When `main` stops waiting at most one robot has a voter who has not voted. If the counter of
  -- voters has not passed 0 there is no such robot, and all voters were handed out.
  pub main_exit :
      main_waits reached ≡ false
      → (voting robots reached ≤ 1)
        × (pos 0 ≤ℤ reached.number_of_unassigned_voters
            → (voting robots reached ≡ 0)
              × (reached.number_of_unassigned_voters ≡ pos 0)
              × (reached.n_votes_to_cast ≡ pos 0))
  unfolding main_waits ◌+ℤ◌
  main_exit h = let (_, votes) = reached_inv in ground (arith, votes.counted)

-- With a single robot the race on the counter of voters cannot happen: when `main` stops waiting
-- every voter was handed out and has voted, and no vote was cast twice.
one_robot_all_vote :
    (evms voters slots : ℕ) (ts : List Thread)
    → main_waits (reached evms 1 voters slots ts) ≡ false
    → (voting 1 (reached evms 1 voters slots ts) ≡ 0)
      × ((reached evms 1 voters slots ts).number_of_unassigned_voters ≡ pos 0)
      × ((reached evms 1 voters slots ts).n_votes_to_cast ≡ pos 0)
one_robot_all_vote evms voters slots ts h =
    (main_exit evms 1 voters slots ts h).1 (one_robot_in_range evms voters slots ts)
