-- ===== src/Badminton/Arrivals.antt =====
-- Assignment4/q1.c: the loop of `main` that starts the threads.
--
-- The probability `p / (p + r) * 10` is compared to 5 as the fraction that it stands for; a double
-- decides the same, as the two differ by far more than its rounding. Where nobody is left to come it
-- is not a number, and both tests fail. The thread numbers and the pauses are left out.
pub mod Laws
use osassignments.Common.{
  ℕ, zero, suc, ◌+◌, ◌*◌, ◌-◌, ◌≤◌, ◌<◌, ◌≡◌, refl, ap, ◌∙◌, Bool, true, false, ◌&&◌, not, Option,
  none, some, List, [], ◌∷◌, ◌++◌, append_assoc, append-nil, ltb, ◌==◌, if◌then◌else◌, arith,
}

-- The variables of the loop, and who was started, in order: `true` for a referee.
pub record Arrivals : Type 0 where
  pub no_player : ℕ
  pub no_refree : ℕ
  pub players : ℕ
  pub refrees : ℕ
  pub flg : ℕ
  pub started : List Bool

unfoldable pub refree_arrives : Arrivals → Arrivals
refree_arrives s = record s {
  no_refree = s.no_refree - 1;
  refrees = suc s.refrees;
  flg = 1;
  started = s.started ++ true ∷ [];
}

unfoldable pub player_arrives : Arrivals → Arrivals
player_arrives s = record s {
  no_player = s.no_player - 1;
  players = suc s.players;
  flg = 1;
  started = s.started ++ false ∷ [];
}

-- The body of the loop, without its `i--`.
unfoldable pub admit : Arrivals → Arrivals
unfolding refree_arrives player_arrives
admit s =
    let low = ltb (s.no_player * 10) (5 * (s.no_player + s.no_refree)) in
    if low && ltb 0 s.no_refree
    then refree_arrives s
    else if not low && ltb 0 s.no_player
    then player_arrives s
    else s

-- The loop from `i` on, `none` where the rounds are used up before its test fails. Where `flg` is 0 it
-- stays at the same `i`.
unfoldable pub arrive : ℕ → ℕ → ℕ → Arrivals → Option Arrivals
unfolding admit
arrive zero total i s = if ltb i total then none else some s
arrive (suc fuel) total i s =
    let t = admit s in
    let rest = arrive fuel total (if t.flg == 0 then i else suc i) t in
    if ltb i total then rest else some s

unfoldable pub main_arrivals : ℕ → ℕ → Option Arrivals
unfolding arrive
main_arrivals fuel n =
    arrive fuel (3 * n) 0
      (record { no_player = 2 * n; no_refree = n; players = 0; refrees = 0; flg = 0; started = [] })

-- A referee, and behind it `m` times a player and a referee.
unfoldable pub alternate : ℕ → List Bool
alternate zero = true ∷ []
alternate (suc m) = true ∷ false ∷ alternate m

unfoldable pub only_players : ℕ → List Bool
only_players zero = []
only_players (suc k) = false ∷ only_players k
