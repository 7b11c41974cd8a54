-- ===== src/Polling/System.antt =====
-- Assignment4/q2.c: the threads of `main`, run in any order.
use osassignments.Common.{ℕ, ◌≡◌, Bool, List, [], ◌∷◌, ltb, if◌then◌else◌}
use osassignments.Common.Int.{pos, ltb_ℤ}
use osassignments.Polling.Booth.{Booth, booth_new, robot_fn, evm_fn}

pub data Thread : Type 0 where
  robot : ℕ → Thread
  evm : ℕ → Thread

-- A number beyond the last robot or machine names no thread.
unfoldable pub turn : Thread → Booth → Booth
unfolding robot_fn evm_fn
turn (robot i) s = if ltb i s.number_of_robots then robot_fn i s else s
turn (evm e) s = if ltb e s.number_of_evms then evm_fn e s else s

-- The threads take turns as the list says.
unfoldable pub run : List Thread → Booth → Booth
unfolding turn
run [] s = s
run (t ∷ ts) s = run ts (turn t s)

-- The last line of `main`: it spins while this is true, and then the process ends.
unfoldable pub main_waits : Booth → Bool
main_waits s = ltb_ℤ (pos 0) s.n_votes_to_cast

-- A state that some schedule reaches from the one that `main` sets up.
pub record Reachable (evms robots voters slots : ℕ) (s : Booth) : Type 0 where
  pub schedule : List Thread
  pub arrives : run schedule (booth_new evms robots voters slots) ≡ s
