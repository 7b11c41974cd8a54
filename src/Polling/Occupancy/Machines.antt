-- ===== src/Polling/Occupancy/Machines.antt =====
-- Assignment4/q2.c: a step of a machine keeps the invariant about the slots, and so does a schedule.
use osassignments.Common.{ℕ, ◌≢◌, arith}
use osassignments.Polling.Booth.{
  test_votes, assert_low, assert_high, test_slots, polling_ready, EvmPc, Booth, set_evm_pc,
  polling_ready_evm, evm_at, evm_fn,
}
use osassignments.Polling.Occupancy.Defs.{SlotsInv}

module _ {robots slots : ℕ} {s : Booth} (inv : SlotsInv robots slots s) (e : ℕ) where
  set_evm_pc-SlotsInv : (p : EvmPc) → p ≢ EvmPc.aborted → SlotsInv robots slots (set_evm_pc s e p)
  set_evm_pc-SlotsInv p h = record {
    slots_kept = inv.slots_kept;
    occupied = inv.occupied;
    room = inv.room;
    free_room = inv.free_room;
    placed = inv.placed;
    evms_run = λ e'. ground (arith, inv.evms_run e');
  }

  -- A machine makes itself free only while it has room.
  polling_ready_evm-SlotsInv : SlotsInv robots slots (polling_ready_evm e s)
  unfolding polling_ready_evm
  polling_ready_evm-SlotsInv = record {
    slots_kept = λ e'. ground (arith, inv.slots_kept e');
    occupied = λ e'. ground (arith, inv.occupied e');
    room = λ e'. ground (arith, inv.room e');
    free_room =
        λ e' q. ground (arith, inv.free_room e', inv.room e', inv.slots_kept e', inv.occupied e');
    placed = λ i. ground (arith, inv.placed i);
    evms_run = λ e'. ground (arith, inv.evms_run e');
  }

  evm_at-SlotsInv : (p : EvmPc) → SlotsInv robots slots (evm_at p e s)
  unfolding evm_at
  evm_at-SlotsInv test_votes = set_evm_pc-SlotsInv _ (ground arith)
  evm_at-SlotsInv assert_low = set_evm_pc-SlotsInv _ (ground (arith, inv.occupied e))
  evm_at-SlotsInv assert_high =
      set_evm_pc-SlotsInv _ (ground (arith, inv.occupied e, inv.slots_kept e, inv.room e))
  evm_at-SlotsInv test_slots = set_evm_pc-SlotsInv _ (ground arith)
  evm_at-SlotsInv polling_ready = polling_ready_evm-SlotsInv
  evm_at-SlotsInv EvmPc.returned = inv
  evm_at-SlotsInv EvmPc.aborted = inv

  pub evm_fn-SlotsInv : SlotsInv robots slots (evm_fn e s)
  unfolding evm_fn
  evm_fn-SlotsInv = evm_at-SlotsInv (s.evm_pcs e)
