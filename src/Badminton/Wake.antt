-- ===== src/Badminton/Wake.antt =====
-- Assignment4/q1.c: a player misses the signal of its own team.
--
-- `meetOrganiser` wakes the sleepers before it sets `flag`, and not under `teamFormationMutex`.
use osassignments.Common.{ℕ, ◌≡◌, ◌≢◌, refl, ap, ◌∙◌, none, some, [], ◌∷◌, arith}
use osassignments.Badminton.Court.{
  unlucky, asleep, at_court, Court, move, stirred, open_court, test_flag, person_at, turn, act, run,
}
use osassignments.Badminton.Teams.{
  IsComplete, IsWaiting, IsOpen, announced, first_turn, turn-test_flag, turn-open_court,
  open_court-IsOpen, open_court-keeps, refree_passes,
}

unlucky_test :
    (j : ℕ) (s : Court)
    → s.flag ≡ 0
    → test_flag j s ≡ move j unlucky (record s { forming_team = some j })
unfolding test_flag
unlucky_test j s shut = ground (arith, shut)

turn-unlucky :
    (j p r : ℕ) (s : Court)
    → (s.people j).pc ≡ unlucky
    → act (turn j p r) s ≡ move j asleep (record s { forming_team = none })
unfolding act person_at
turn-unlucky j p r s here = ap (λ pc. person_at pc j p r s) here

-- The player has found `flag` 0 and sleeps, between the two turns of the referee.
abbrev missed : ℕ → ℕ → Court → Court
missed i j s =
    move j asleep (record (move j unlucky (record (announced i s) { forming_team = some j })) {
      forming_team = none;
    })

player_sleeps :
    (i j p r : ℕ) (s : Court)
    → i ≢ j
    → IsComplete i s
    → IsWaiting j s
    → run (turn i p r ∷ turn j p r ∷ turn j p r ∷ []) s ≡ missed i j s
unfolding run stirred
player_sleeps i j p r s ne c w =
    let a : Court = announced i s in
    let b : Court = move j unlucky (record a { forming_team = some j }) in
    ap (λ t. act (turn j p r) (act (turn j p r) t)) (first_turn i p r s c)
    ∙ ap (act (turn j p r))
        (turn-test_flag j p r a (ground (arith, w.waits, ne)) c.unformed ∙ unlucky_test j a c.shut)
    ∙ turn-unlucky j p r b (ground arith)

-- From the same state as in `team_plays` the player can be left behind: if it tests `flag` and falls
-- asleep between the two turns of the referee, the referee enters the court without it, `flag` is 0
-- again, the organiser holds nobody, and the player sleeps.
pub team_lost :
    (i j p r : ℕ) (s : Court)
    → i ≢ j
    → IsComplete i s
    → IsWaiting j s
    → let t = run (turn i p r ∷ turn j p r ∷ turn j p r ∷ turn i p r ∷ turn i p r ∷ []) s in
      ((t.people i).pc ≡ at_court)
      × ((t.people j).pc ≡ asleep)
      × (t.flag ≡ 0)
      × (t.player_with_organiser ≡ 0)
      × (t.refree_with_organiser ≡ 0)
unfolding run stirred
team_lost i j p r s ne c w =
    let m : Court = missed i j s in
    let o : Court = open_court i p r m in
    let shown : IsOpen i o = open_court-IsOpen i p r m (ground (arith, c.refree, ne)) refl in
    let kept : o.people j ≡ m.people j = open_court-keeps i p r j m ne (ground arith) in
    let end : run (turn i p r ∷ turn i p r ∷ []) m ≡ move i at_court (record o { flag = 0 }) =
      ap (act (turn i p r)) (turn-open_court i p r m (ground (arith, ne)))
      ∙ turn-test_flag i p r o shown.tests shown.unformed
      ∙ refree_passes i o shown.refree shown.open_flag in
    rw (player_sleeps i j p r s ne c w, end)
      (ground arith, ground (arith, kept, ne), refl, shown.no_players, shown.no_refree)
