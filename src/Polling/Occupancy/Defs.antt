-- ===== src/Polling/Occupancy/Defs.antt =====
-- Assignment4/q2.c: the invariant about the slots of the machines.
use osassignments.Common.{
  ℕ, ◌<◌, ◌≤◌, ◌≡◌, ◌≢◌, Bool, false, none, some, ◌==◌, arith, refl, Bool-cases, inl, inr,
}
use osassignments.Common.Int.{pos}
use osassignments.Common.Family.{put, how_many, how_many-zero}
use osassignments.Polling.Booth.{Robot, in_slot, RobotPc, EvmPc, Booth, booth_new}

-- The robot is in a slot of machine `e`.
abbrev pub on_evm : ℕ → Robot → Bool
on_evm e r = elim r.assigned_evm [ none ↦ false | some e' ↦ e' == e ]

-- How many robots are in a slot of machine `e`.
abbrev pub served : ℕ → Booth → ℕ → ℕ
served robots s e = how_many (on_evm e) robots s.robots

-- A robot has a machine exactly while it is in a slot, and its thread has not been aborted.
pub record IsPlaced (r : Robot) : Type 0 where
  pub runs : r.pc ≢ RobotPc.aborted
  pub seated : r.pc ≡ in_slot → r.assigned_evm ≢ none
  pub unseated : r.pc ≢ in_slot → r.assigned_evm ≡ none

-- With `robots` robots and `slots` slots in each machine.
pub record SlotsInv (robots slots : ℕ) (s : Booth) : Type 0 where
  pub slots_kept : (e : ℕ) → (s.evms e).number_of_slots ≡ pos slots
  pub occupied : (e : ℕ) → (s.evms e).number_occupied ≡ pos (served robots s e)
  pub room : (e : ℕ) → served robots s e ≤ slots
  pub free_room : (e : ℕ) → s.free_evm ≡ some e → served robots s e < slots
  pub placed : (i : ℕ) → IsPlaced (s.robots i)
  pub evms_run : (e : ℕ) → s.evm_pcs e ≢ EvmPc.aborted

-- Replacing a robot by one that is placed leaves all robots placed.
pub put-IsPlaced :
    (s : Booth) (i : ℕ) (r : Robot)
    → ((j : ℕ) → IsPlaced (s.robots j))
    → IsPlaced r
    → (j : ℕ) → IsPlaced (put s.robots i r j)
put-IsPlaced s i r old new j = elim (Bool-cases (i == j)) [
  | inl e ↦ rw e new
  | inr e ↦ rw e (old j)
]

pub booth_new-SlotsInv :
    (evms robots voters slots : ℕ) → SlotsInv robots slots (booth_new evms robots voters slots)
unfolding booth_new
booth_new-SlotsInv evms robots voters slots = record {
  slots_kept = λ e. refl;
  occupied = λ e. ground (arith, nobody e);
  room = λ e. ground (arith, nobody e);
  free_room = λ e h. ground arith;
  placed = λ i. record { runs = ground arith; seated = λ h. ground arith; unseated = λ h. refl };
  evms_run = λ i. ground arith;
}
  where
    nobody : (e : ℕ) → served robots (booth_new evms robots voters slots) e ≡ 0
    nobody e = how_many-zero (on_evm e) robots _ (λ i. refl)
