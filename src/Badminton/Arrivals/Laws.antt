-- ===== src/Badminton/Arrivals/Laws.antt =====
-- Assignment4/q1.c: whom the loop of `main` starts, and in which order.
use osassignments.Common.{
  ℕ, zero, suc, ◌+◌, ◌*◌, ◌≤◌, ◌<◌, ◌≡◌, refl, ap, ◌∙◌, Bool, true, false, some, List, [], ◌∷◌,
  ◌++◌, append_assoc, append-nil, arith,
}
use osassignments.Badminton.Arrivals.{
  Arrivals, refree_arrives, player_arrives, admit, arrive, main_arrivals, alternate, only_players,
}

-- `2 * m + 1 + f` and `k + f` as so many rounds.
rounds : ℕ → ℕ → ℕ
rounds zero f = suc f
rounds (suc m) f = suc (suc (rounds m f))

after : ℕ → ℕ → ℕ
after zero f = f
after (suc k) f = suc (after k f)

rounds_lem : (m f : ℕ) → rounds m f ≡ 2 * m + 1 + f
unfolding rounds
rounds_lem zero f = omega arith
rounds_lem (suc m) f = omega (arith, rounds_lem m f)

-- Behind the last round the test fails, however many rounds are left.
arrive-over : (f total i : ℕ) (s : Arrivals) → i ≡ total → arrive f total i s ≡ some s
unfolding arrive
arrive-over zero total i s e = ground (arith, e)
arrive-over (suc f) total i s e = ground (arith, e)

after_lem : (k f : ℕ) → after k f ≡ k + f
unfolding after
after_lem zero f = omega arith
after_lem (suc k) f = omega (arith, after_lem k f)

admit-player :
    (s : Arrivals) → s.no_refree ≤ s.no_player → 0 < s.no_player → admit s ≡ player_arrives s
unfolding admit
admit-player s le lt = ground arith

admit-refree : (s : Arrivals) → s.no_player < s.no_refree → admit s ≡ refree_arrives s
unfolding admit
admit-refree s lt = ground arith

-- A round that starts a thread.
round :
    (fuel total i : ℕ) (s t : Arrivals)
    → admit s ≡ t
    → t.flg ≡ 1
    → i < total
    → arrive (suc fuel) total i s ≡ arrive fuel total (suc i) t
unfolding arrive
round fuel total i s t e one lt = ground (arith, e)

abbrev at : ℕ → ℕ → ℕ → ℕ → List Bool → Arrivals
at p r players refrees started = record {
  no_player = p;
  no_refree = r;
  players = players;
  refrees = refrees;
  flg = 1;
  started = started;
}

admit_one :
    (p r players refrees : ℕ) (st : List Bool)
    → r ≤ suc p
    → admit (at (suc p) r players refrees st) ≡ at p r (suc players) refrees (st ++ false ∷ [])
unfolding player_arrives
admit_one p r players refrees st le =
    admit-player (at (suc p) r players refrees st) le (omega arith)
    ∙ ap (λ q. at q r (suc players) refrees (st ++ false ∷ [])) (omega arith)

admit_referee :
    (p r players refrees : ℕ) (st : List Bool)
    → p < suc r
    → admit (at p (suc r) players refrees st) ≡ at p r players (suc refrees) (st ++ true ∷ [])
unfolding refree_arrives
admit_referee p r players refrees st lt =
    admit-refree (at p (suc r) players refrees st) lt
    ∙ ap (λ q. at p q players (suc refrees) (st ++ true ∷ [])) (omega arith)

at-eq :
    (p r : ℕ) {a b c d : ℕ} {st su : List Bool}
    → a ≡ b
    → c ≡ d
    → st ≡ su
    → at p r a c st ≡ at p r b d su
at-eq p r e f g = cc

-- The last rounds: one player less than referees is to come.
alternate_lem :
    (m f total i players refrees : ℕ) (st : List Bool)
    → i + (2 * m + 1) ≡ total
    → arrive (rounds m f) total i (at m (suc m) players refrees st)
      ≡ some (at 0 0 (players + m) (refrees + suc m) (st ++ alternate m))
unfolding rounds alternate arrive
alternate_lem zero f total i players refrees st h =
    round f total i (at 0 1 players refrees st) (at 0 0 players (suc refrees) (st ++ true ∷ []))
      (admit_referee 0 0 players refrees st (omega arith)) refl (omega arith)
    ∙ arrive-over f total (suc i) (at 0 0 players (suc refrees) (st ++ true ∷ [])) (omega arith)
    ∙ ap some (at-eq 0 0 (omega arith) (omega arith) refl)
alternate_lem (suc m) f total i players refrees st h =
    round (suc (rounds m f)) total i (at (suc m) (suc (suc m)) players refrees st)
      (at (suc m) (suc m) players (suc refrees) (st ++ true ∷ []))
      (admit_referee (suc m) (suc m) players refrees st (omega arith)) refl (omega arith)
    ∙ round (rounds m f) total (suc i) (at (suc m) (suc m) players (suc refrees) (st ++ true ∷ []))
        (at m (suc m) (suc players) (suc refrees) ((st ++ true ∷ []) ++ false ∷ []))
        (admit_one m (suc m) players (suc refrees) (st ++ true ∷ []) (omega arith)) refl
        (omega arith)
    ∙ alternate_lem m f total (suc (suc i)) (suc players) (suc refrees)
        ((st ++ true ∷ []) ++ false ∷ []) (omega arith)
    ∙ ap some (
        at-eq 0 0 (omega arith) (omega arith) (
          append_assoc (st ++ true ∷ []) (false ∷ []) (alternate m)
          ∙ append_assoc st (true ∷ []) (false ∷ alternate m)))

zero_left : (n : ℕ) → 0 + n ≡ n
zero_left n = omega arith

zero_right : (n : ℕ) → n + 0 ≡ n
zero_right n = omega arith

suc_left : (k n : ℕ) → suc k + n ≡ suc (k + n)
suc_left k n = omega arith

suc_right : (n k : ℕ) → n + suc k ≡ suc n + k
suc_right n k = omega arith

-- The first rounds: `k` players, while the players to come are as many as the referees at least.
lead_lem :
    (k f q r total i players refrees : ℕ) (st : List Bool)
    → r ≤ suc q
    → i + k ≤ total
    → arrive (after k f) total i (at (k + q) r players refrees st)
      ≡ arrive f total (i + k) (at q r (players + k) refrees (st ++ only_players k))
unfolding after only_players
lead_lem zero f q r total i players refrees st le room =
    rw (zero_left q, zero_right i, zero_right players, append-nil st) refl
lead_lem (suc k) f q r total i players refrees st le room = rw (suc_left k q) (
    round (after k f) total i (at (suc (k + q)) r players refrees st)
      (at (k + q) r (suc players) refrees (st ++ false ∷ []))
      (admit_one (k + q) r players refrees st (omega arith)) refl (omega arith)
    ∙ lead_lem k f q r total (suc i) (suc players) refrees (st ++ false ∷ []) le (omega arith)
    ∙ rw (suc_right i k, suc_right players k, append_assoc st (false ∷ []) (only_players k)) refl)

-- The first round, where `flg` is still 0.
first_round :
    (f total p r : ℕ)
    → r ≤ suc p
    → 0 < total
    → arrive (suc f) total 0 (record {
      no_player = suc p;
      no_refree = r;
      players = 0;
      refrees = 0;
      flg = 0;
      started = [];
    })
      ≡ arrive f total 1 (at p r 1 0 (false ∷ []))
unfolding player_arrives
first_round f total p r le lt =
    round f total 0
      (record { no_player = suc p; no_refree = r; players = 0; refrees = 0; flg = 0; started = [] })
      (at p r 1 0 (false ∷ []))
      (admit-player
          (record {
            no_player = suc p;
            no_refree = r;
            players = 0;
            refrees = 0;
            flg = 0;
            started = [];
          })
          le (omega arith)
        ∙ ap (λ q. at q r 1 0 (false ∷ [])) (omega arith))
      refl lt

-- With `n` courts' teams to come, for `n` of 1 or more, the loop ends by its test after `3 * n` rounds,
-- however many more it might do. It has started `2 * n` players and `n` referees: first `n + 1`
-- players, then a referee and a player in turn, and a referee at the end. So the first referee is
-- started behind two players at least.
pub main_arrivals_lem :
    (m spare : ℕ)
    → main_arrivals (3 * suc m + spare) (suc m)
      ≡ some (record {
        no_player = 0;
        no_refree = 0;
        players = 2 * suc m;
        refrees = suc m;
        flg = 1;
        started = only_players (suc (suc m)) ++ alternate m;
      })
unfolding main_arrivals only_players
main_arrivals_lem m spare =
    let fuel : 3 * suc m + spare ≡ suc (after (suc m) (rounds m spare)) =
      omega (arith, after_lem (suc m) (rounds m spare), rounds_lem m spare) in
    let total : ℕ = 3 * suc m in
    let coming : 2 * suc m ≡ suc (suc m + m) = omega arith in
    let init : ℕ → Arrivals = λ p. record {
      no_player = p;
      no_refree = suc m;
      players = 0;
      refrees = 0;
      flg = 0;
      started = [];
    } in
    ap (λ f. arrive f total 0 (init (2 * suc m))) fuel
    ∙ ap (λ p. arrive (suc (after (suc m) (rounds m spare))) total 0 (init p)) coming
    ∙ first_round (after (suc m) (rounds m spare)) total (suc m + m) (suc m) (omega arith)
        (omega arith)
    ∙ lead_lem (suc m) (rounds m spare) m (suc m) total 1 1 0 (false ∷ []) (omega arith)
        (omega arith)
    ∙ alternate_lem m spare total (1 + suc m) (1 + suc m) 0 (false ∷ only_players (suc m))
        (omega arith)
    ∙ ap some (at-eq 0 0 (omega arith) (omega arith) refl)
