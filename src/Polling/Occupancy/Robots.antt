-- ===== src/Polling/Occupancy/Robots.antt =====
-- Assignment4/q2.c: a step of a robot keeps the invariant about the slots.
use osassignments.Common.{
  ℕ, ◌+◌, ◌<◌, ◌≡◌, not, ◌&&◌, true, Option, none, some, ◌==◌, if◌then◌else◌, arith, refl,
  Option-cases, Bool-cases, inl, inr,
}
use osassignments.Common.Int.{ℤ, pos, ◌+ℤ◌, ◌-ℤ◌, eq_ℤ, ltb_ℤ}
use osassignments.Common.Family.{put, how_many, how_many-put, how_many-put_same}
use osassignments.Polling.Booth.{
  Robot, in_slot, wait_evm, get_voter, take_voter, RobotPc, Booth, set_robot, booth_get_voter_test,
  booth_get_voter_take, take_slot, leave_slot, voter_wait_for_evm, voter_in_slot, robot_fn,
  robot_at,
}
use osassignments.Polling.Occupancy.Defs.{on_evm, served, IsPlaced, SlotsInv, put-IsPlaced}

-- The robot `r` in a slot of machine `e`, and out of it.
abbrev seat : ℕ → Robot → Robot
seat e r = record r { assigned_evm = some e; pc = in_slot }

abbrev unseat : Robot → Robot
unseat r = record r { assigned_evm = none; pc = get_voter }

-- The robot `r` with the voter `id`, a number below 0 being none.
abbrev taken : ℤ → Robot → Robot
taken id r = record r {
  voter_id = id;
  pc = if ltb_ℤ id (pos 0) then RobotPc.returned else wait_evm;
}

module _ {robots slots : ℕ} {s : Booth} (inv : SlotsInv robots slots s) (i : ℕ) where
  -- A robot that keeps its machine, or has none, changes no count.
  module _ (r : Robot) (same : r.assigned_evm ≡ (s.robots i).assigned_evm) (new : IsPlaced r) where
    served-set_robot : (e : ℕ) → served robots (set_robot s i r) e ≡ served robots s e
    served-set_robot e = how_many-put_same (on_evm e) robots s.robots i r (rw same)

    set_robot-SlotsInv : SlotsInv robots slots (set_robot s i r)
    set_robot-SlotsInv = record {
      slots_kept = inv.slots_kept;
      occupied = λ e. rw (served-set_robot e) (inv.occupied e);
      room = λ e. rw (served-set_robot e) (inv.room e);
      free_room = λ e h. rw (served-set_robot e) (inv.free_room e h);
      placed = put-IsPlaced s i r inv.placed new;
      evms_run = inv.evms_run;
    }

  booth_get_voter_test-SlotsInv :
      (s.robots i).pc ≡ get_voter → SlotsInv robots slots (booth_get_voter_test i s)
  unfolding booth_get_voter_test
  booth_get_voter_test-SlotsInv h = elim (Bool-cases (eq_ℤ s.number_of_unassigned_voters (pos 0))) [
    | inl e ↦ rw e (set_robot-SlotsInv _ refl (ground (arith, inv.placed i)))
    | inr e ↦ rw e (set_robot-SlotsInv _ refl (ground (arith, inv.placed i)))
  ]

  booth_get_voter_take-SlotsInv :
      (s.robots i).pc ≡ take_voter → SlotsInv robots slots (booth_get_voter_take i s)
  unfolding booth_get_voter_take
  booth_get_voter_take-SlotsInv h =
      let kept =
        set_robot-SlotsInv (taken s.number_of_unassigned_voters (s.robots i)) refl
          (ground (arith, inv.placed i)) in
      record {
        slots_kept = kept.slots_kept;
        occupied = kept.occupied;
        room = kept.room;
        free_room = kept.free_room;
        placed = kept.placed;
        evms_run = kept.evms_run;
      }

  served-take :
      (e : ℕ)
      → i < robots
      → (s.robots i).pc ≡ wait_evm
      → (e' : ℕ)
      → how_many (on_evm e') robots (put s.robots i (seat e (s.robots i)))
        ≡ (if e == e' then served robots s e' + 1 else served robots s e')
  served-take e lt h e' = ground (
    arith,
    (inv.placed i).unseated,
    how_many-put (on_evm e') robots s.robots i (seat e (s.robots i)),
  )

  take_slot-SlotsInv :
      (e : ℕ)
      → i < robots
      → (s.robots i).pc ≡ wait_evm
      → s.free_evm ≡ some e
      → SlotsInv robots slots (take_slot i e s)
  unfolding take_slot ◌+ℤ◌
  take_slot-SlotsInv e lt h free = record {
    slots_kept = λ e'. ground (arith, inv.slots_kept e', inv.slots_kept e);
    occupied = λ e'. ground (
      arith,
      inv.occupied e',
      inv.occupied e,
      inv.slots_kept e,
      inv.free_room e,
      served-take e lt h e',
    );
    room = λ e'. ground (
      arith,
      inv.room e',
      inv.occupied e,
      inv.slots_kept e,
      inv.free_room e,
      served-take e lt h e',
    );
    free_room = λ e' q. ground (
      arith,
      inv.room e',
      inv.occupied e,
      inv.slots_kept e,
      inv.free_room e,
      served-take e lt h e',
    );
    placed = λ j. ground (arith, inv.placed j, inv.occupied e, inv.slots_kept e, inv.free_room e);
    evms_run = λ j. ground (arith, inv.evms_run j);
  }

  -- The assertions of `voter_wait_for_evm` pass.
  pub take_slot_passes :
      (e : ℕ)
      → s.free_evm ≡ some e
      → (not (ltb_ℤ (s.evms e).number_occupied (pos 0))
          && ltb_ℤ (s.evms e).number_occupied (s.evms e).number_of_slots)
        ≡ true
  take_slot_passes e free = ground (arith, inv.occupied e, inv.slots_kept e, inv.free_room e)

  voter_wait_for_evm-SlotsInv :
      i < robots → (s.robots i).pc ≡ wait_evm → SlotsInv robots slots (voter_wait_for_evm i s)
  unfolding voter_wait_for_evm
  voter_wait_for_evm-SlotsInv lt h = go s.free_evm refl
    where
      go :
          (o : Option ℕ)
          → s.free_evm ≡ o
          → SlotsInv robots slots (elim o [ none ↦ s | some e ↦ take_slot i e s ])
      go none q = inv
      go (some e) q = take_slot-SlotsInv e lt h q

  served-leave :
      (e : ℕ)
      → i < robots
      → (s.robots i).assigned_evm ≡ some e
      → (e' : ℕ)
      → how_many (on_evm e') robots (put s.robots i (unseat (s.robots i)))
          + (if e == e' then 1 else 0)
        ≡ served robots s e'
  served-leave e lt h e' =
      ground (arith, how_many-put (on_evm e') robots s.robots i (unseat (s.robots i)))

  leave_slot-SlotsInv :
      (e : ℕ)
      → i < robots
      → (s.robots i).assigned_evm ≡ some e
      → SlotsInv robots slots (leave_slot i e s)
  unfolding leave_slot ◌-ℤ◌
  leave_slot-SlotsInv e lt h = record {
    slots_kept = λ e'. ground (arith, inv.slots_kept e', inv.slots_kept e);
    occupied = λ e'. ground (arith, inv.occupied e', inv.occupied e, served-leave e lt h e');
    room = λ e'. ground (arith, inv.room e', served-leave e lt h e');
    free_room = λ e' q. ground (arith, inv.free_room e', served-leave e lt h e');
    placed = put-IsPlaced s i _ inv.placed (ground arith);
    evms_run = inv.evms_run;
  }

  voter_in_slot-SlotsInv :
      i < robots → (s.robots i).pc ≡ in_slot → SlotsInv robots slots (voter_in_slot i s)
  unfolding voter_in_slot
  voter_in_slot-SlotsInv lt h = elim (Option-cases (s.robots i).assigned_evm) [
    | inl e ↦ absurd ((inv.placed i).seated h e)
    | inr (e, f) ↦ rw (f, voter_in_slot) (leave_slot-SlotsInv e lt f)
  ]

  robot_at-SlotsInv :
      i < robots → (p : RobotPc) → (s.robots i).pc ≡ p → SlotsInv robots slots (robot_at p i s)
  unfolding robot_at
  robot_at-SlotsInv lt get_voter h = booth_get_voter_test-SlotsInv h
  robot_at-SlotsInv lt take_voter h = booth_get_voter_take-SlotsInv h
  robot_at-SlotsInv lt wait_evm h = voter_wait_for_evm-SlotsInv lt h
  robot_at-SlotsInv lt in_slot h = voter_in_slot-SlotsInv lt h
  robot_at-SlotsInv lt RobotPc.returned h = inv
  robot_at-SlotsInv lt RobotPc.aborted h = inv

  pub robot_fn-SlotsInv : i < robots → SlotsInv robots slots (robot_fn i s)
  unfolding robot_fn
  robot_fn-SlotsInv lt = robot_at-SlotsInv lt (s.robots i).pc refl
