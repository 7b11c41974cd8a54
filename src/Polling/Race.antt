-- ===== src/Polling/Race.antt =====
-- Assignment4/q2.c: `booth_get_voter` tests the counter of voters before it takes the mutex.
--
-- Two robots can both pass the test for the last voter; a robot that works alone cannot go wrong.
use osassignments.Common.{ℕ, ◌<◌, ◌≡◌, ◌≢◌, arith, refl, List, [], ◌∷◌}
use osassignments.Common.Int.{pos, negsuc, ◌-ℤ◌, ◌≤ℤ◌, ◌<ℤ◌}
use osassignments.Polling.Booth.{
  in_slot, wait_evm, get_voter, take_voter, RobotPc, EvmPc, test_votes, Booth, booth_new,
  booth_get_voter_test, booth_get_voter_take, voter_wait_for_evm, voter_in_slot, take_slot,
  leave_slot, robot_fn, robot_at, evm_at, evm_fn, polling_ready_evm,
}
use osassignments.Polling.System.{Thread, robot, run}
use osassignments.Polling.Schedules.{run_keeps}

-- With one voter left, two robots that are both about to test the counter, and both test before either
-- takes the mutex, are given the voters 1 and 0, and both go on to vote; the counter ends at -1.
pub last_voter_race :
    (s : Booth) (i j : ℕ)
    → i ≢ j
    → i < s.number_of_robots
    → j < s.number_of_robots
    → (s.robots i).pc ≡ get_voter
    → (s.robots j).pc ≡ get_voter
    → s.number_of_unassigned_voters ≡ pos 1
    → let t = run (robot i ∷ robot j ∷ robot i ∷ robot j ∷ []) s in
      ((t.robots i).voter_id ≡ pos 1)
      × ((t.robots j).voter_id ≡ pos 0)
      × ((t.robots i).pc ≡ wait_evm)
      × ((t.robots j).pc ≡ wait_evm)
      × (t.number_of_unassigned_voters ≡ negsuc 0)
unfolding run robot_fn booth_get_voter_test booth_get_voter_take ◌-ℤ◌
last_voter_race s i j ne li lj hi hj u = ground arith

-- A single robot, robot 0.
record AloneInv (s : Booth) : Type 0 where
  unassigned-nonneg : pos 0 ≤ℤ s.number_of_unassigned_voters
  test_passed : (s.robots 0).pc ≡ take_voter → pos 0 <ℤ s.number_of_unassigned_voters

module _ {s : Booth} (inv : AloneInv s) where
  open inv use {unassigned-nonneg, test_passed}

  robot_at-AloneInv : (p : RobotPc) → (s.robots 0).pc ≡ p → AloneInv (robot_at p 0 s)
  unfolding robot_at booth_get_voter_test booth_get_voter_take voter_wait_for_evm voter_in_slot
      take_slot leave_slot ◌-ℤ◌
  robot_at-AloneInv get_voter h = ground (arith, test_passed)
  robot_at-AloneInv take_voter h = ground (arith, test_passed)
  robot_at-AloneInv wait_evm h = ground (arith, test_passed)
  robot_at-AloneInv in_slot h = ground (arith, test_passed)
  robot_at-AloneInv RobotPc.returned h = inv
  robot_at-AloneInv RobotPc.aborted h = inv

  evm_at-AloneInv : (p : EvmPc) (e : ℕ) → AloneInv (evm_at p e s)
  unfolding evm_at polling_ready_evm
  evm_at-AloneInv test_votes e = ground (arith, test_passed)
  evm_at-AloneInv p e = ground (arith, test_passed)

  robot_fn-AloneInv : (i : ℕ) → i < 1 → AloneInv (robot_fn i s)
  unfolding robot_fn
  robot_fn-AloneInv i lt = rw (zero_of_lt i lt) (robot_at-AloneInv (s.robots 0).pc refl)
    where
      zero_of_lt : (i : ℕ) → i < 1 → i ≡ 0
      zero_of_lt i lt = omega arith

  evm_fn-AloneInv : (e : ℕ) → AloneInv (evm_fn e s)
  unfolding evm_fn
  evm_fn-AloneInv e = evm_at-AloneInv (s.evm_pcs e) e

-- With one robot the counter of voters never passes 0, under any schedule.
pub one_robot_in_range :
    (evms voters slots : ℕ) (ts : List Thread)
    → pos 0 ≤ℤ (run ts (booth_new evms 1 voters slots)).number_of_unassigned_voters
unfolding booth_new
one_robot_in_range evms voters slots ts =
    (run_keeps AloneInv 1 (λ s i lt inv. robot_fn-AloneInv inv i lt)
      (λ s e inv. evm_fn-AloneInv inv e) ts _ refl
      (record {
        unassigned-nonneg = ground arith;
        test_passed = λ h. ground arith;
      })).unassigned-nonneg
