-- ===== src/Polling/Ends.antt =====
-- Assignment4/q2.c: when the threads of robots and machines come to their end.
use osassignments.Common.{ℕ, ◌≡◌, refl, Option, none, some, arith}
use osassignments.Common.Int.{pos, ◌-ℤ◌, ◌≤ℤ◌}
use osassignments.Common.Family.{put}
use osassignments.Polling.Booth.{
  RobotPc, EvmPc, get_voter, take_voter, wait_evm, in_slot, test_votes, assert_low, assert_high,
  test_slots, polling_ready, Booth, booth_new, set_robot, booth_get_voter_test,
  booth_get_voter_take, take_slot, voter_wait_for_evm, leave_slot, voter_in_slot, robot_at,
  robot_fn, polling_ready_evm, evm_at, evm_fn,
}

-- A thread of a machine ends when all have voted, one of a robot when no voter is left.
pub record EndsInv (evms robots : ℕ) (s : Booth) : Type 0 where
  pub evms_kept : s.number_of_evms ≡ evms
  pub robots_kept : s.number_of_robots ≡ robots
  pub evm_done : (e : ℕ) → s.evm_pcs e ≡ EvmPc.returned → s.n_votes_to_cast ≤ℤ pos 0
  pub robot_done :
      (i : ℕ) → (s.robots i).pc ≡ RobotPc.returned → s.number_of_unassigned_voters ≤ℤ pos 0

module _ {evms robots : ℕ} {s : Booth} (inv : EndsInv evms robots s) where
  open inv use {evms_kept, robots_kept, evm_done, robot_done}

  booth_get_voter_test-EndsInv : (i : ℕ) → EndsInv evms robots (booth_get_voter_test i s)
  unfolding booth_get_voter_test
  booth_get_voter_test-EndsInv i = record {
    evms_kept = ground (arith, evms_kept);
    robots_kept = ground (arith, robots_kept);
    evm_done = λ e h. ground (arith, evm_done e);
    robot_done = λ j h. ground (arith, robot_done j);
  }

  booth_get_voter_take-EndsInv : (i : ℕ) → EndsInv evms robots (booth_get_voter_take i s)
  unfolding booth_get_voter_take ◌-ℤ◌
  booth_get_voter_take-EndsInv i = record {
    evms_kept = ground (arith, evms_kept);
    robots_kept = ground (arith, robots_kept);
    evm_done = λ e h. ground (arith, evm_done e);
    robot_done = λ j h. ground (arith, robot_done j);
  }

  take_slot-EndsInv : (i e : ℕ) → EndsInv evms robots (take_slot i e s)
  unfolding take_slot
  take_slot-EndsInv i e = record {
    evms_kept = ground (arith, evms_kept);
    robots_kept = ground (arith, robots_kept);
    evm_done = λ f h. ground (arith, evm_done f);
    robot_done = λ j h. ground (arith, robot_done j);
  }

  leave_slot-EndsInv : (i e : ℕ) → EndsInv evms robots (leave_slot i e s)
  unfolding leave_slot ◌-ℤ◌
  leave_slot-EndsInv i e = record {
    evms_kept = ground (arith, evms_kept);
    robots_kept = ground (arith, robots_kept);
    evm_done = λ f h. ground (arith, evm_done f);
    robot_done = λ j h. ground (arith, robot_done j);
  }

  -- The machine does not end.
  evm_moves-EndsInv :
      (e : ℕ) (free : Option ℕ) (pc : EvmPc)
      → (pc ≡ EvmPc.returned → s.n_votes_to_cast ≤ℤ pos 0)
      → EndsInv evms robots (record s { free_evm = free; evm_pcs = put s.evm_pcs e pc })
  evm_moves-EndsInv e free pc ends = record {
    evms_kept = evms_kept;
    robots_kept = robots_kept;
    evm_done = λ f h. ground (arith, evm_done f, ends);
    robot_done = robot_done;
  }

  robot_aborts-EndsInv :
      (i : ℕ) → EndsInv evms robots (set_robot s i (record (s.robots i) { pc = RobotPc.aborted }))
  robot_aborts-EndsInv i = record {
    evms_kept = evms_kept;
    robots_kept = robots_kept;
    evm_done = evm_done;
    robot_done = λ j h. ground (arith, robot_done j);
  }

  voter_wait_for_evm-EndsInv : (i : ℕ) → EndsInv evms robots (voter_wait_for_evm i s)
  unfolding voter_wait_for_evm
  voter_wait_for_evm-EndsInv i = go s.free_evm
    where
      go : (m : Option ℕ) → EndsInv evms robots (elim m [ none ↦ s | some e ↦ take_slot i e s ])
      go none = inv
      go (some e) = take_slot-EndsInv i e

  voter_in_slot-EndsInv : (i : ℕ) → EndsInv evms robots (voter_in_slot i s)
  unfolding voter_in_slot
  voter_in_slot-EndsInv i = go (s.robots i).assigned_evm
    where
      go :
          (m : Option ℕ)
          → EndsInv evms robots (elim m [
            | none ↦ set_robot s i (record (s.robots i) { pc = RobotPc.aborted })
            | some e ↦ leave_slot i e s
          ])
      go none = robot_aborts-EndsInv i
      go (some e) = leave_slot-EndsInv i e

  polling_ready_evm-EndsInv : (e : ℕ) → EndsInv evms robots (polling_ready_evm e s)
  unfolding polling_ready_evm
  polling_ready_evm-EndsInv e = record {
    evms_kept = ground (arith, evms_kept);
    robots_kept = ground (arith, robots_kept);
    evm_done = λ f h. ground (arith, evm_done f);
    robot_done = λ j h. ground (arith, robot_done j);
  }

  robot_at-EndsInv : (pc : RobotPc) (i : ℕ) → EndsInv evms robots (robot_at pc i s)
  unfolding robot_at
  robot_at-EndsInv get_voter i = booth_get_voter_test-EndsInv i
  robot_at-EndsInv take_voter i = booth_get_voter_take-EndsInv i
  robot_at-EndsInv wait_evm i = voter_wait_for_evm-EndsInv i
  robot_at-EndsInv in_slot i = voter_in_slot-EndsInv i
  robot_at-EndsInv RobotPc.returned i = inv
  robot_at-EndsInv RobotPc.aborted i = inv

  pub robot_fn-EndsInv : (i : ℕ) → EndsInv evms robots (robot_fn i s)
  unfolding robot_fn
  robot_fn-EndsInv i = robot_at-EndsInv (s.robots i).pc i

  evm_at-EndsInv : (pc : EvmPc) (e : ℕ) → EndsInv evms robots (evm_at pc e s)
  unfolding evm_at
  evm_at-EndsInv test_votes e = evm_moves-EndsInv e s.free_evm _ (λ h. ground arith)
  evm_at-EndsInv assert_low e = evm_moves-EndsInv e s.free_evm _ (λ h. ground arith)
  evm_at-EndsInv assert_high e = evm_moves-EndsInv e s.free_evm _ (λ h. ground arith)
  evm_at-EndsInv test_slots e = evm_moves-EndsInv e s.free_evm _ (λ h. ground arith)
  evm_at-EndsInv polling_ready e = polling_ready_evm-EndsInv e
  evm_at-EndsInv EvmPc.returned e = inv
  evm_at-EndsInv EvmPc.aborted e = inv

  pub evm_fn-EndsInv : (e : ℕ) → EndsInv evms robots (evm_fn e s)
  unfolding evm_fn
  evm_fn-EndsInv e = evm_at-EndsInv (s.evm_pcs e) e

pub booth_new-EndsInv :
    (evms robots voters slots : ℕ) → EndsInv evms robots (booth_new evms robots voters slots)
unfolding booth_new
booth_new-EndsInv evms robots voters slots = record {
  evms_kept = refl;
  robots_kept = refl;
  evm_done = λ e h. cc;
  robot_done = λ i h. ground arith;
}
