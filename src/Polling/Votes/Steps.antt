-- ===== src/Polling/Votes/Steps.antt =====
-- Assignment4/q2.c: every step keeps the invariant about voters and votes.
use osassignments.Common.{
  ℕ, ◌<◌, ◌≡◌, Bool, true, false, Option, none, some, if◌then◌else◌, arith, refl, Option-cases,
  Bool-cases, inl, inr,
}
use osassignments.Common.Int.{pos, ◌+ℤ◌, ◌-ℤ◌, eq_ℤ, ltb_ℤ}
use osassignments.Common.Family.{how_many-put, how_many-put_same}
use osassignments.Polling.Booth.{
  Robot, in_slot, wait_evm, get_voter, take_voter, RobotPc, EvmPc, test_votes, assert_low,
  assert_high, test_slots, polling_ready, Booth, set_robot, booth_get_voter_test,
  booth_get_voter_take, take_slot, leave_slot, voter_wait_for_evm, voter_in_slot, robot_fn,
  robot_at, polling_ready_evm, evm_at, evm_fn,
}
use osassignments.Polling.Occupancy.{SlotsInv, take_slot_passes}
use osassignments.Polling.Votes.Defs.{is_voting, voting, VotesInv}

module _ {robots voters : ℕ} {s : Booth} (inv : VotesInv robots voters s) (i : ℕ) where
  -- A step that leaves the robot voting or not, with its voter, keeps the invariant.
  module _ (r : Robot) (b : Bool) (was : is_voting (s.robots i) ≡ b) (now : is_voting r ≡ b)
      (same : r.voter_id ≡ (s.robots i).voter_id) where
    voting-set_robot : voting robots (set_robot s i r) ≡ voting robots s
    voting-set_robot = how_many-put_same is_voting robots s.robots i r (ground arith)

    set_robot-VotesInv : VotesInv robots voters (set_robot s i r)
    set_robot-VotesInv = record {
      counted = rw voting-set_robot inv.counted;
      unassigned-le = inv.unassigned-le;
      issued = λ j. ground (arith, inv.issued j);
      distinct = λ j k ne. ground (arith, inv.distinct j k);
    }

  module _ (r : Robot) (was : is_voting (s.robots i) ≡ false) (now : is_voting r ≡ false) where
    voting-set_idle : voting robots (set_robot s i r) ≡ voting robots s
    voting-set_idle = how_many-put_same is_voting robots s.robots i r (ground arith)

    set_idle-VotesInv : VotesInv robots voters (set_robot s i r)
    set_idle-VotesInv = record {
      counted = rw voting-set_idle inv.counted;
      unassigned-le = inv.unassigned-le;
      issued = λ j. ground (arith, inv.issued j);
      distinct = λ j k ne. ground (arith, inv.distinct j k);
    }

  booth_get_voter_test-VotesInv :
      (s.robots i).pc ≡ get_voter → VotesInv robots voters (booth_get_voter_test i s)
  unfolding booth_get_voter_test
  booth_get_voter_test-VotesInv h = elim (Bool-cases (eq_ℤ s.number_of_unassigned_voters (pos 0))) [
    | inl e ↦ rw e (set_idle-VotesInv _ (ground arith) refl)
    | inr e ↦ rw e (set_idle-VotesInv _ (ground arith) refl)
  ]

  abbrev taker : Robot
  taker = record (s.robots i) {
    voter_id = s.number_of_unassigned_voters;
    pc = if ltb_ℤ s.number_of_unassigned_voters (pos 0) then RobotPc.returned else wait_evm;
  }

  booth_get_voter_take-VotesInv :
      i < robots → (s.robots i).pc ≡ take_voter → VotesInv robots voters (booth_get_voter_take i s)
  unfolding booth_get_voter_take ◌-ℤ◌ ◌+ℤ◌
  booth_get_voter_take-VotesInv lt h = record {
    counted = ground (arith, inv.counted, how_many-put is_voting robots s.robots i taker);
    unassigned-le = ground (arith, inv.unassigned-le);
    issued = λ j. ground (arith, inv.issued j, inv.unassigned-le);
    distinct = λ j k ne. ground (arith, inv.distinct j k, inv.issued j, inv.issued k);
  }

  take_slot-VotesInv :
      {slots : ℕ} (room : SlotsInv robots slots s) (e : ℕ)
      → (s.robots i).pc ≡ wait_evm
      → s.free_evm ≡ some e
      → VotesInv robots voters (take_slot i e s)
  unfolding take_slot
  take_slot-VotesInv room e h free =
      let kept =
        set_robot-VotesInv (record (s.robots i) { assigned_evm = some e; pc = in_slot }) true
          (ground arith) refl refl in
      rw (take_slot_passes room i e free) (record {
        counted = kept.counted;
        unassigned-le = kept.unassigned-le;
        issued = kept.issued;
        distinct = kept.distinct;
      })

  voter_wait_for_evm-VotesInv :
      {slots : ℕ} (room : SlotsInv robots slots s)
      → (s.robots i).pc ≡ wait_evm
      → VotesInv robots voters (voter_wait_for_evm i s)
  unfolding voter_wait_for_evm
  voter_wait_for_evm-VotesInv room h = go s.free_evm refl
    where
      go :
          (o : Option ℕ)
          → s.free_evm ≡ o
          → VotesInv robots voters (elim o [ none ↦ s | some e ↦ take_slot i e s ])
      go none q = inv
      go (some e) q = take_slot-VotesInv room e h q

  leaver : Robot
  leaver = record (s.robots i) { assigned_evm = none; pc = get_voter }

  leave_slot-VotesInv :
      (e : ℕ) → i < robots → (s.robots i).pc ≡ in_slot → VotesInv robots voters (leave_slot i e s)
  unfolding leave_slot ◌-ℤ◌ ◌+ℤ◌ leaver
  leave_slot-VotesInv e lt h = record {
    counted = ground (arith, inv.counted, how_many-put is_voting robots s.robots i leaver);
    unassigned-le = inv.unassigned-le;
    issued = λ j. ground (arith, inv.issued j);
    distinct = λ j k ne. ground (arith, inv.distinct j k);
  }

  voter_in_slot-VotesInv :
      {slots : ℕ} (room : SlotsInv robots slots s)
      → i < robots
      → (s.robots i).pc ≡ in_slot
      → VotesInv robots voters (voter_in_slot i s)
  unfolding voter_in_slot
  voter_in_slot-VotesInv room lt h = elim (Option-cases (s.robots i).assigned_evm) [
    | inl e ↦ absurd ((room.placed i).seated h e)
    | inr (e, f) ↦ rw (f, voter_in_slot) (leave_slot-VotesInv e lt h)
  ]

  robot_at-VotesInv :
      {slots : ℕ} (room : SlotsInv robots slots s)
      → i < robots
      → (p : RobotPc) → (s.robots i).pc ≡ p
      → VotesInv robots voters (robot_at p i s)
  unfolding robot_at
  robot_at-VotesInv room lt get_voter h = booth_get_voter_test-VotesInv h
  robot_at-VotesInv room lt take_voter h = booth_get_voter_take-VotesInv lt h
  robot_at-VotesInv room lt wait_evm h = voter_wait_for_evm-VotesInv room h
  robot_at-VotesInv room lt in_slot h = voter_in_slot-VotesInv room lt h
  robot_at-VotesInv room lt RobotPc.returned h = inv
  robot_at-VotesInv room lt RobotPc.aborted h = inv

  pub robot_fn-VotesInv :
      {slots : ℕ} → SlotsInv robots slots s → i < robots → VotesInv robots voters (robot_fn i s)
  unfolding robot_fn
  robot_fn-VotesInv room lt = robot_at-VotesInv room lt (s.robots i).pc refl

module _ {robots voters : ℕ} {s : Booth} (inv : VotesInv robots voters s) (e : ℕ) where
  evm_at-VotesInv : (p : EvmPc) → VotesInv robots voters (evm_at p e s)
  unfolding evm_at polling_ready_evm
  evm_at-VotesInv test_votes = record {
    counted = inv.counted;
    unassigned-le = inv.unassigned-le;
    issued = inv.issued;
    distinct = inv.distinct;
  }
  evm_at-VotesInv assert_low = record {
    counted = inv.counted;
    unassigned-le = inv.unassigned-le;
    issued = inv.issued;
    distinct = inv.distinct;
  }
  evm_at-VotesInv assert_high = record {
    counted = inv.counted;
    unassigned-le = inv.unassigned-le;
    issued = inv.issued;
    distinct = inv.distinct;
  }
  evm_at-VotesInv test_slots = record {
    counted = inv.counted;
    unassigned-le = inv.unassigned-le;
    issued = inv.issued;
    distinct = inv.distinct;
  }
  evm_at-VotesInv polling_ready = record {
    counted = ground (arith, inv.counted);
    unassigned-le = ground (arith, inv.unassigned-le);
    issued = λ j. ground (arith, inv.issued j);
    distinct = λ j k ne. ground (arith, inv.distinct j k);
  }
  evm_at-VotesInv EvmPc.returned = inv
  evm_at-VotesInv EvmPc.aborted = inv

  pub evm_fn-VotesInv : VotesInv robots voters (evm_fn e s)
  unfolding evm_fn
  evm_fn-VotesInv = evm_at-VotesInv (s.evm_pcs e)
