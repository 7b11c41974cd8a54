-- ===== src/Polling/Examples.antt =====
-- Assignment4/q2.c: runs of the booth, and each theorem at such a run.
use osassignments.Common.{
  ℕ, ◌<◌, ◌≤◌, ◌≡◌, ◌≢◌, refl, true, false, some, List, [], ◌∷◌, ◌++◌, arith,
}
use osassignments.Common.Int.{pos, negsuc, ◌≤ℤ◌, ◌<ℤ◌, ◌+ℤ◌, ◌-ℤ◌}
use osassignments.Polling.Booth.{
  booth_new, EvmPc, RobotPc, wait_evm, robot_fn, evm_fn, booth_get_voter_test, booth_get_voter_take,
  voter_wait_for_evm, take_slot, voter_in_slot, leave_slot, polling_ready_evm,
}
use osassignments.Polling.System.{Thread, robot, evm, run, main_waits}
use osassignments.Polling.Occupancy.{served}
use osassignments.Polling.Votes.{is_voting, voting}
use osassignments.Polling.Progress.{voting_ends}
use osassignments.Polling.Race.{last_voter_race}
use osassignments.Polling.Safety.{
  reached, assertions_hold, occupied-eq-served, voters_distinct, main_exit,
}

-- One line unfolds the program.
program : Unit {0}
unfolding run robot_fn evm_fn booth_new booth_get_voter_test booth_get_voter_take voter_wait_for_evm
    take_slot voter_in_slot leave_slot polling_ready_evm main_waits ◌+ℤ◌ ◌-ℤ◌
program = tt

-- Machine 0 makes itself free.
abbrev offer : List Thread
offer = evm 0 ∷ evm 0 ∷ evm 0 ∷ evm 0 ∷ evm 0 ∷ []

-- A robot is given a voter, a slot, and casts the vote.
abbrev votes : ℕ → List Thread
votes i = robot i ∷ robot i ∷ robot i ∷ robot i ∷ []

-- One robot, one voter: the vote is cast, and `main` goes on.
abbrev one_vote : List Thread
one_vote = offer ++ votes 0

one_vote_ends : main_waits (reached 1 1 1 1 one_vote) ≡ false
unfolding program
one_vote_ends = refl

-- Two robots race for the last voter; both get a slot in turn, and two votes are cast for one.
abbrev race : List Thread
race = robot 0 ∷ robot 1 ∷ robot 0 ∷ robot 1 ∷ offer ++ robot 1 ∷ robot 1 ∷ []

-- The first vote to be cast is the one for voter 0, who does not exist: `main` stops waiting while
-- robot 0 still has voter 1, who has not voted.
race_loses_a_vote :
    (main_waits (reached 1 2 1 1 race) ≡ false)
    × (((reached 1 2 1 1 race).robots 0).voter_id ≡ pos 1)
    × (((reached 1 2 1 1 race).robots 0).pc ≡ wait_evm)
unfolding program
race_loses_a_vote = (refl, refl, refl)

-- Machine 0 ends as soon as it sees the counter of votes at 0, so no machine serves that robot.
race_strands_robot :
    (((reached 1 2 1 1 (race ++ offer ++ robot 0 ∷ robot 0 ∷ [])).robots 0).pc ≡ wait_evm)
    × ((reached 1 2 1 1 (race ++ offer)).evm_pcs 0 ≡ EvmPc.returned)
unfolding program
race_strands_robot = (refl, refl)

assertions_hold_example :
    ((i : ℕ) → ((reached 1 2 1 1 race).robots i).pc ≢ RobotPc.aborted)
    × ((e : ℕ) → (reached 1 2 1 1 race).evm_pcs e ≢ EvmPc.aborted)
assertions_hold_example = assertions_hold 1 2 1 1 race

occupied-eq-served_example :
    (((reached 1 2 1 1 race).evms 0).number_occupied ≡ pos (served 2 (reached 1 2 1 1 race) 0))
    × (served 2 (reached 1 2 1 1 race) 0 ≤ 1)
    × ((reached 1 2 1 1 race).free_evm ≡ some 0 → served 2 (reached 1 2 1 1 race) 0 < 1)
occupied-eq-served_example = occupied-eq-served 1 2 1 1 race 0

voters_distinct_example :
    ((i j : ℕ)
      → i ≢ j
      → is_voting ((reached 1 2 1 1 race).robots i) ≡ true
      → is_voting ((reached 1 2 1 1 race).robots j) ≡ true
      → ((reached 1 2 1 1 race).robots i).voter_id ≢ ((reached 1 2 1 1 race).robots j).voter_id)
    × ((i : ℕ)
        → is_voting ((reached 1 2 1 1 race).robots i) ≡ true
        → ((reached 1 2 1 1 race).number_of_unassigned_voters
            <ℤ ((reached 1 2 1 1 race).robots i).voter_id)
          × (pos 0 ≤ℤ ((reached 1 2 1 1 race).robots i).voter_id)
          × (((reached 1 2 1 1 race).robots i).voter_id ≤ℤ pos 1))
voters_distinct_example = voters_distinct 1 2 1 1 race

race_ends : main_waits (reached 1 2 1 1 race) ≡ false
unfolding program
race_ends = refl

main_exit_example :
    (voting 2 (reached 1 2 1 1 race) ≤ 1)
    × (pos 0 ≤ℤ (reached 1 2 1 1 race).number_of_unassigned_voters
        → (voting 2 (reached 1 2 1 1 race) ≡ 0)
          × ((reached 1 2 1 1 race).number_of_unassigned_voters ≡ pos 0)
          × ((reached 1 2 1 1 race).n_votes_to_cast ≡ pos 0))
main_exit_example = main_exit 1 2 1 1 race race_ends

-- Behind the race of the two robots.
voting_ends_example :
    (more : List Thread) × (main_waits (run more (run race (booth_new 1 2 1 1))) ≡ false)
voting_ends_example = voting_ends 1 2 1 1 (omega arith) (omega arith) (omega arith) race

last_voter_race_example :
    let t = run (robot 0 ∷ robot 1 ∷ robot 0 ∷ robot 1 ∷ []) (booth_new 1 2 1 1) in
    ((t.robots 0).voter_id ≡ pos 1)
    × ((t.robots 1).voter_id ≡ pos 0)
    × ((t.robots 0).pc ≡ wait_evm)
    × ((t.robots 1).pc ≡ wait_evm)
    × (t.number_of_unassigned_voters ≡ negsuc 0)
unfolding booth_new
last_voter_race_example =
    last_voter_race (booth_new 1 2 1 1) 0 1 (λ e. cc) (omega arith) (omega arith) refl refl refl
