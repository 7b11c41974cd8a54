-- ===== src/Polling/Progress/Turns.antt =====
-- Assignment4/q2.c: what is kept at the booth, and the turns of its threads in such a state.
use osassignments.Common.{ℕ, ◌<◌, ◌≡◌, refl, ap, ◌∙◌, List, [], ◌∷◌, ◌++◌, arith}
use osassignments.Polling.Booth.{RobotPc, EvmPc, Booth, robot_fn, robot_at, evm_fn, evm_at}
use osassignments.Polling.System.{Thread, robot, evm, turn, run}
use osassignments.Polling.Schedules.{run_keeps}
use osassignments.Polling.Occupancy.{SlotsInv, robot_fn-SlotsInv, evm_fn-SlotsInv}
use osassignments.Polling.Votes.{VotesInv, robot_fn-VotesInv, evm_fn-VotesInv}
use osassignments.Polling.Ends.{EndsInv, robot_fn-EndsInv, evm_fn-EndsInv}

-- All that is kept.
pub record BoothInv (evms robots voters slots : ℕ) (s : Booth) : Type 0 where
  pub room : SlotsInv robots slots s
  pub votes : VotesInv robots voters s
  pub ends : EndsInv evms robots s

pub run-append : (ts us : List Thread) (s : Booth) → run (ts ++ us) s ≡ run us (run ts s)
unfolding run
run-append [] us s = refl
run-append (t ∷ ts) us s = run-append ts us (turn t s)

module _ {evms robots voters slots : ℕ} where
  pub run-BoothInv :
      (ts : List Thread) (s : Booth)
      → BoothInv evms robots voters slots s
      → BoothInv evms robots voters slots (run ts s)
  run-BoothInv ts s inv =
      run_keeps (BoothInv evms robots voters slots) robots
        (λ s i lt h. record {
          room = robot_fn-SlotsInv h.room i lt;
          votes = robot_fn-VotesInv h.votes i h.room lt;
          ends = robot_fn-EndsInv h.ends i;
        })
        (λ s e h. record {
          room = evm_fn-SlotsInv h.room e;
          votes = evm_fn-VotesInv h.votes e;
          ends = evm_fn-EndsInv h.ends e;
        })
        ts s inv.ends.robots_kept inv

  module _ {s : Booth} (inv : BoothInv evms robots voters slots s) where
    open inv use {room, votes, ends}

    turn-robot : (i : ℕ) → i < robots → turn (robot i) s ≡ robot_fn i s
    unfolding turn
    turn-robot i lt = ground (arith, ends.robots_kept)

    turn-evm : (e : ℕ) → e < evms → turn (evm e) s ≡ evm_fn e s
    unfolding turn
    turn-evm e lt = ground (arith, ends.evms_kept)

    pub run-robot :
        (i : ℕ)
        → i < robots
        → (pc : RobotPc) → (s.robots i).pc ≡ pc
        → run (robot i ∷ []) s ≡ robot_at pc i s
    unfolding run robot_fn
    run-robot i lt pc e = turn-robot i lt ∙ ap (λ p. robot_at p i s) e

    pub run-evm :
        (e : ℕ) → e < evms → (pc : EvmPc) → s.evm_pcs e ≡ pc → run (evm e ∷ []) s ≡ evm_at pc e s
    unfolding run evm_fn
    run-evm e lt pc h = turn-evm e lt ∙ ap (λ p. evm_at p e s) h
