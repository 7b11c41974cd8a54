-- ===== src/Polling/Schedules.antt =====
-- Assignment4/q2.c: what each thread keeps, every schedule keeps.
use osassignments.Common.{ℕ, ◌<◌, ◌≡◌, ◌∙◌, List, [], ◌∷◌, ltb, Bool-cases, inl, inr, arith}
use osassignments.Polling.Booth.{
  Booth, robot_fn, evm_fn, booth_get_voter_test, booth_get_voter_take, take_slot,
  voter_wait_for_evm, leave_slot, voter_in_slot, polling_ready_evm,
}
use osassignments.Polling.System.{Thread, turn, run}

-- The number of robots never changes.
voter_in_slot-number_of_robots :
    (i : ℕ) (s : Booth) → (voter_in_slot i s).number_of_robots ≡ s.number_of_robots
unfolding voter_in_slot leave_slot
voter_in_slot-number_of_robots i s = ground arith

voter_wait_for_evm-number_of_robots :
    (i : ℕ) (s : Booth) → (voter_wait_for_evm i s).number_of_robots ≡ s.number_of_robots
unfolding voter_wait_for_evm take_slot
voter_wait_for_evm-number_of_robots i s = ground arith

robot_fn-number_of_robots :
    (i : ℕ) (s : Booth) → (robot_fn i s).number_of_robots ≡ s.number_of_robots
unfolding robot_fn booth_get_voter_test booth_get_voter_take
robot_fn-number_of_robots i s =
    ground (arith, voter_in_slot-number_of_robots i s, voter_wait_for_evm-number_of_robots i s)

evm_fn-number_of_robots : (e : ℕ) (s : Booth) → (evm_fn e s).number_of_robots ≡ s.number_of_robots
unfolding evm_fn polling_ready_evm
evm_fn-number_of_robots e s = ground arith

turn-number_of_robots : (t : Thread) (s : Booth) → (turn t s).number_of_robots ≡ s.number_of_robots
unfolding turn
turn-number_of_robots (Thread.robot i) s = ground (arith, robot_fn-number_of_robots i s)
turn-number_of_robots (Thread.evm e) s = ground (arith, evm_fn-number_of_robots e s)

module _ {ℓ} (P : Booth → Type ℓ) (robots : ℕ)
    (robot_keeps : (s : Booth) (i : ℕ) → i < robots → P s → P (robot_fn i s))
    (evm_keeps : (s : Booth) (e : ℕ) → P s → P (evm_fn e s)) where
  turn_keeps : (t : Thread) (s : Booth) → s.number_of_robots ≡ robots → P s → P (turn t s)
  unfolding turn
  turn_keeps (Thread.robot i) s n h = elim (Bool-cases (ltb i s.number_of_robots)) [
    | inl e ↦ simp e (robot_keeps s i (ground arith) h)
    | inr e ↦ simp e h
  ]
  turn_keeps (Thread.evm i) s n h = elim (Bool-cases (ltb i s.number_of_evms)) [
    | inl e ↦ simp e (evm_keeps s i h)
    | inr e ↦ simp e h
  ]

  pub run_keeps : (ts : List Thread) (s : Booth) → s.number_of_robots ≡ robots → P s → P (run ts s)
  unfolding run
  run_keeps [] s n h = h
  run_keeps (t ∷ ts) s n h =
      run_keeps ts (turn t s) (turn-number_of_robots t s ∙ n) (turn_keeps t s n h)
