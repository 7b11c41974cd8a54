-- ===== src/Polling/Booth.antt =====
-- Assignment4/q2.c: the booth, its machines and robots, and the functions that change them.
--
-- A call of a function that takes the mutex is one step, from `booth_lock` to `booth_unlock`;
-- a read outside the mutex is a step of its own. A failed `assert` leaves the thread at `aborted`.
use osassignments.Common.{ℕ, ◌&&◌, not, Option, none, some, if◌then◌else◌}
use osassignments.Common.Int.{ℤ, pos, negsuc, ◌+ℤ◌, ◌-ℤ◌, ltb_ℤ, eq_ℤ}
use osassignments.Common.Family.{put}

-- The `single_booth` pointer of a machine and of a robot is left out: there is one booth.
pub record ElectronicVotingMachine : Type 0 where
  pub uniq_id : ℕ
  pub number_of_slots : ℤ
  pub number_occupied : ℤ

-- Where the thread of a robot stands in `robot_fn`.
pub data RobotPc : Type 0 where
  get_voter : RobotPc  -- before the test of `booth_get_voter`, which reads without the mutex
  take_voter : RobotPc  -- the test has passed, `booth_lock` is next
  wait_evm : RobotPc  -- in the loop of `voter_wait_for_evm`
  in_slot : RobotPc  -- before `voter_in_slot`
  returned : RobotPc
  aborted : RobotPc

-- The machine a robot was assigned, by its index in `evms`.
pub record Robot : Type 0 where
  pub uniq_id : ℕ
  pub voter_id : ℤ
  pub assigned_evm : Option ℕ
  pub pc : RobotPc

-- Where the thread of a machine stands in `evm_fn`.
pub data EvmPc : Type 0 where
  test_votes : EvmPc  -- the head of the loop
  assert_low : EvmPc  -- `number_occupied >= 0`
  assert_high : EvmPc  -- `number_occupied <= number_of_slots`
  test_slots : EvmPc  -- `number_occupied < number_of_slots`
  polling_ready : EvmPc  -- in the loop of `polling_ready_evm`
  returned : EvmPc
  aborted : EvmPc

-- `struct voting_Bth`, with the place of each thread. `free_evm` is an index in `evms`.
pub record Booth : Type 0 where
  pub evms : ℕ → ElectronicVotingMachine
  pub number_of_evms : ℕ
  pub free_evm : Option ℕ
  pub robots : ℕ → Robot
  pub number_of_robots : ℕ
  pub number_of_unassigned_voters : ℤ
  pub n_votes_to_cast : ℤ
  pub evm_pcs : ℕ → EvmPc

unfoldable pub get_new_evm : ℕ → ℤ → ElectronicVotingMachine
get_new_evm id slots = record { uniq_id = id; number_of_slots = slots; number_occupied = pos 0 }

unfoldable pub robot_new : ℕ → Robot
robot_new id = record { uniq_id = id; voter_id = negsuc 0; assigned_evm = none; pc = get_voter }

-- `booth_new` and the two loops of `main`, which fill the arrays and start the threads.
unfoldable pub booth_new : ℕ → ℕ → ℕ → ℕ → Booth
unfolding get_new_evm robot_new
booth_new evms robots voters slots = record {
  evms = λ e. get_new_evm e (pos slots);
  number_of_evms = evms;
  free_evm = none;
  robots = robot_new;
  number_of_robots = robots;
  number_of_unassigned_voters = pos voters;
  n_votes_to_cast = pos voters;
  evm_pcs = λ _. test_votes;
}

abbrev pub set_robot : Booth → ℕ → Robot → Booth
set_robot s i r = record s { robots = put s.robots i r }

abbrev pub set_evm : Booth → ℕ → ElectronicVotingMachine → Booth
set_evm s e m = record s { evms = put s.evms e m }

abbrev pub set_evm_pc : Booth → ℕ → EvmPc → Booth
set_evm_pc s e p = record s { evm_pcs = put s.evm_pcs e p }

-- The test of `booth_get_voter`. Its -1 makes `robot_fn` return.
unfoldable pub booth_get_voter_test : ℕ → Booth → Booth
booth_get_voter_test i s =
    let r = s.robots i in
    if eq_ℤ s.number_of_unassigned_voters (pos 0)
    then set_robot s i (record r { voter_id = negsuc 0; pc = RobotPc.returned })
    else set_robot s i (record r { pc = take_voter })

-- The rest of `booth_get_voter`, and the test of its result in `robot_fn`.
unfoldable pub booth_get_voter_take : ℕ → Booth → Booth
booth_get_voter_take i s =
    let r = s.robots i in
    let id = s.number_of_unassigned_voters in
    let next = if ltb_ℤ id (pos 0) then RobotPc.returned else wait_evm in
    record s {
      number_of_unassigned_voters = id -ℤ pos 1;
      robots = put s.robots i (record r { voter_id = id; pc = next });
    }

-- The body of `voter_wait_for_evm` where `free_evm` points to machine `e`: its two assertions,
-- the new occupation, and `free_evm` reset if that was the last slot.
unfoldable pub take_slot : ℕ → ℕ → Booth → Booth
take_slot i e s =
    let r = s.robots i in
    let m = s.evms e in
    let filled = m.number_occupied +ℤ pos 1 in
    if not (ltb_ℤ m.number_occupied (pos 0)) && ltb_ℤ m.number_occupied m.number_of_slots
    then record s {
      evms = put s.evms e (record m { number_occupied = filled });
      free_evm = if eq_ℤ filled m.number_of_slots then none else some e;
      robots = put s.robots i (record r { assigned_evm = some e; pc = in_slot });
    }
    else set_robot s i (record r { pc = RobotPc.aborted })

-- One round of the loop of `voter_wait_for_evm`.
unfoldable pub voter_wait_for_evm : ℕ → Booth → Booth
voter_wait_for_evm i s = elim s.free_evm [ none ↦ s | some e ↦ take_slot i e s ]

unfoldable pub leave_slot : ℕ → ℕ → Booth → Booth
leave_slot i e s =
    let r = s.robots i in
    let m = s.evms e in
    record s {
      evms = put s.evms e (record m { number_occupied = m.number_occupied -ℤ pos 1 });
      robots = put s.robots i (record r { assigned_evm = none; pc = get_voter });
      n_votes_to_cast = s.n_votes_to_cast -ℤ pos 1;
    }

-- `voter_in_slot`, which asserts that a machine is assigned; then `robot_fn` loops.
unfoldable pub voter_in_slot : ℕ → Booth → Booth
voter_in_slot i s = elim (s.robots i).assigned_evm [
  | none ↦ set_robot s i (record (s.robots i) { pc = RobotPc.aborted })
  | some e ↦ leave_slot i e s
]

-- One round of the loop of `polling_ready_evm`. Where another machine is free the loop goes on.
unfoldable pub polling_ready_evm : ℕ → Booth → Booth
polling_ready_evm e s =
    let m = s.evms e in
    if eq_ℤ m.number_occupied m.number_of_slots
    then set_evm_pc s e test_votes
    else elim s.free_evm [
      | none ↦ set_evm_pc (record s { free_evm = some e }) e test_votes
      | some _ ↦ s
    ]

-- `robot_fn`, up to the next point at which another thread may run.
unfoldable pub robot_at : RobotPc → ℕ → Booth → Booth
robot_at get_voter i s = booth_get_voter_test i s
robot_at take_voter i s = booth_get_voter_take i s
robot_at wait_evm i s = voter_wait_for_evm i s
robot_at in_slot i s = voter_in_slot i s
robot_at RobotPc.returned i s = s
robot_at RobotPc.aborted i s = s

unfoldable pub robot_fn : ℕ → Booth → Booth
unfolding robot_at
robot_fn i s = robot_at (s.robots i).pc i s

-- `evm_fn`, up to the next point at which another thread may run.
unfoldable pub evm_at : EvmPc → ℕ → Booth → Booth
evm_at test_votes e s =
    set_evm_pc s e (if ltb_ℤ (pos 0) s.n_votes_to_cast then assert_low else EvmPc.returned)
evm_at assert_low e s =
    set_evm_pc s e (if ltb_ℤ (s.evms e).number_occupied (pos 0) then EvmPc.aborted else assert_high)
evm_at assert_high e s =
    let m = s.evms e in
    set_evm_pc s e (if ltb_ℤ m.number_of_slots m.number_occupied then EvmPc.aborted else test_slots)
evm_at test_slots e s =
    let m = s.evms e in
    set_evm_pc s e (if ltb_ℤ m.number_occupied m.number_of_slots then polling_ready else test_votes)
evm_at polling_ready e s = polling_ready_evm e s
evm_at EvmPc.returned e s = s
evm_at EvmPc.aborted e s = s

unfoldable pub evm_fn : ℕ → Booth → Booth
unfolding evm_at
evm_fn e s = evm_at (s.evm_pcs e) e s
