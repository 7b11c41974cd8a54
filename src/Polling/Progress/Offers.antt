-- ===== src/Polling/Progress/Offers.antt =====
-- Assignment4/q2.c: a machine that nobody uses comes to be offered as free.
use osassignments.Common.{
  ℕ, ◌<◌, ◌≡◌, ◌≢◌, sym, ap, subst, ◌∙◌, none, some, List, [], ◌∷◌, ◌++◌, arith,
}
use osassignments.Common.Int.{pos, ◌<ℤ◌}
use osassignments.Common.Family.{how_many}
use osassignments.Polling.Booth.{
  EvmPc, test_votes, assert_low, assert_high, test_slots, polling_ready, Booth, evm_at,
  polling_ready_evm,
}
use osassignments.Polling.System.{Thread, evm, run}
use osassignments.Polling.Occupancy.{on_evm, served}
use osassignments.Polling.Progress.Turns.{BoothInv, run-append, run-BoothInv, run-evm}

-- The thread is one step nearer to `polling_ready`.
abbrev next_pc : EvmPc → EvmPc
next_pc test_votes = assert_low
next_pc assert_low = assert_high
next_pc assert_high = test_slots
next_pc test_slots = polling_ready
next_pc pc = pc

-- Votes are left, nobody is at machine 0, and no machine is free.
pub record IsIdle (evms robots voters slots : ℕ) (s : Booth) : Type 0 where
  pub inv : BoothInv evms robots voters slots s
  pub votes_left : pos 0 <ℤ s.n_votes_to_cast
  pub nobody : served robots s 0 ≡ 0
  pub none_free : s.free_evm ≡ none

module _ {evms robots voters slots : ℕ} where
  module _ {s : Booth} (inv : BoothInv evms robots voters slots s) where
    open inv use {room, votes, ends}

    -- The robots and votes of the state `s` do not change.
    abbrev Same : Booth → Type 0
    Same t = (t.robots ≡ s.robots) × (t.n_votes_to_cast ≡ s.n_votes_to_cast)

    ready-free :
        0 < evms
        → 0 < slots
        → served robots s 0 ≡ 0
        → s.free_evm ≡ none
        → s.evm_pcs 0 ≡ polling_ready
        → let t = run (evm 0 ∷ []) s in (t.free_evm ≡ some 0) × (Same t)
    unfolding evm_at polling_ready_evm
    ready-free le ls empty none_free h =
        let eq = run-evm inv 0 le polling_ready h in
        (
          ap (λ t. t.free_evm) eq ∙ ground (arith, room.occupied 0, room.slots_kept 0),
          (
            ap (λ t. t.robots) eq ∙ ground (arith, room.occupied 0, room.slots_kept 0),
            ap (λ t. t.n_votes_to_cast) eq ∙ ground (arith, room.occupied 0, room.slots_kept 0),
          ),
        )

    comes_next :
        0 < evms
        → 0 < slots
        → pos 0 <ℤ s.n_votes_to_cast
        → served robots s 0 ≡ 0
        → (pc : EvmPc) → pc ≢ polling_ready
        → s.evm_pcs 0 ≡ pc
        → let t = run (evm 0 ∷ []) s in
          (t.evm_pcs 0 ≡ next_pc pc) × (t.free_evm ≡ s.free_evm) × (Same t)
    unfolding evm_at
    comes_next le ls v empty pc ne h =
        let eq = run-evm inv 0 le pc h in
        (
          ap (λ t. t.evm_pcs 0) eq
              ∙ ground
                  (arith, room.occupied 0, room.slots_kept 0, ends.evm_done 0, room.evms_run 0),
          ap (λ t. t.free_evm) eq ∙ ground arith,
          (ap (λ t. t.robots) eq ∙ ground arith, ap (λ t. t.n_votes_to_cast) eq ∙ ground arith),
        )

-- Some turns bring a machine to be free, and leave robots and votes as they are.
pub record Offers (s : Booth) : Type 0 where
  pub turns : List Thread
  pub machine : ℕ
  pub offered : (run turns s).free_evm ≡ some machine
  pub same_robots : (run turns s).robots ≡ s.robots
  pub same_votes : (run turns s).n_votes_to_cast ≡ s.n_votes_to_cast

Offers-behind :
    (ts : List Thread) (s : Booth)
    → (run ts s).robots ≡ s.robots
    → (run ts s).n_votes_to_cast ≡ s.n_votes_to_cast
    → Offers (run ts s)
    → Offers s
Offers-behind ts s e v o =
    let same = run-append ts o.turns s in
    record {
      turns = ts ++ o.turns;
      machine = o.machine;
      offered = ap (λ t. t.free_evm) same ∙ o.offered;
      same_robots = ap (λ t. t.robots) same ∙ (o.same_robots ∙ e);
      same_votes = ap (λ t. t.n_votes_to_cast) same ∙ (o.same_votes ∙ v);
    }

module _ (evms robots voters slots : ℕ) (le : 0 < evms) (ls : 0 < slots) where
  abbrev Idle : Booth → Type 0
  Idle s = IsIdle evms robots voters slots s

  step-Offers :
      (s : Booth) (idle : Idle s) (pc : EvmPc)
      → pc ≢ polling_ready
      → s.evm_pcs 0 ≡ pc
      → ((t : Booth) → Idle t → t.evm_pcs 0 ≡ next_pc pc → Offers t)
      → Offers s
  step-Offers s idle pc ne h next =
      let (moved, free, (robots_same, votes_same)) =
        comes_next idle.inv le ls idle.votes_left idle.nobody pc ne h in
      let t = run (evm 0 ∷ []) s in
      Offers-behind (evm 0 ∷ []) s robots_same votes_same (
        next t
          (record {
            inv = run-BoothInv (evm 0 ∷ []) s idle.inv;
            votes_left = subst (λ v. pos 0 <ℤ v) (sym votes_same) idle.votes_left;
            nobody = ap (λ f. how_many (on_evm 0) robots f) robots_same ∙ idle.nobody;
            none_free = free ∙ idle.none_free;
          })
          moved)

  polling_ready-Offers : (s : Booth) → Idle s → s.evm_pcs 0 ≡ polling_ready → Offers s
  polling_ready-Offers s idle h =
      let (offered, (robots_same, votes_same)) =
        ready-free idle.inv le ls idle.nobody idle.none_free h in
      record {
        turns = evm 0 ∷ [];
        machine = 0;
        offered = offered;
        same_robots = robots_same;
        same_votes = votes_same;
      }

  test_slots-Offers : (s : Booth) → Idle s → s.evm_pcs 0 ≡ test_slots → Offers s
  test_slots-Offers s idle h = step-Offers s idle test_slots (ground arith) h polling_ready-Offers

  assert_high-Offers : (s : Booth) → Idle s → s.evm_pcs 0 ≡ assert_high → Offers s
  assert_high-Offers s idle h = step-Offers s idle assert_high (ground arith) h test_slots-Offers

  assert_low-Offers : (s : Booth) → Idle s → s.evm_pcs 0 ≡ assert_low → Offers s
  assert_low-Offers s idle h = step-Offers s idle assert_low (ground arith) h assert_high-Offers

  test_votes-Offers : (s : Booth) → Idle s → s.evm_pcs 0 ≡ test_votes → Offers s
  test_votes-Offers s idle h = step-Offers s idle test_votes (ground arith) h assert_low-Offers

  -- Wherever the thread of machine 0 stands.
  pub evm_at-Offers : (s : Booth) → Idle s → (pc : EvmPc) → s.evm_pcs 0 ≡ pc → Offers s
  evm_at-Offers s idle test_votes h = test_votes-Offers s idle h
  evm_at-Offers s idle assert_low h = assert_low-Offers s idle h
  evm_at-Offers s idle assert_high h = assert_high-Offers s idle h
  evm_at-Offers s idle test_slots h = test_slots-Offers s idle h
  evm_at-Offers s idle polling_ready h = polling_ready-Offers s idle h
  evm_at-Offers s idle EvmPc.returned h =
      absurd (omega (arith, idle.votes_left, idle.inv.ends.evm_done 0 h))
  evm_at-Offers s idle EvmPc.aborted h = absurd (idle.inv.room.evms_run 0 h)
