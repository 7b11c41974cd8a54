-- ===== src/Badminton/Teams.antt =====
-- Assignment4/q1.c: a referee who finds two players. The team can enter the court, and it can be lost.
use osassignments.Common.{ℕ, ◌≡◌, ◌≢◌, ◌⊎◌, refl, ap, ◌∙◌, true, false, none, some, [], ◌∷◌, arith}
use osassignments.Badminton.Court.{
  in_academy, queued, announcing, forming, asleep, at_court, Court, move, stirred, complete_team,
  meet_refree, signal, open_court, test_flag, form_at, team_formation, person_at, turn, act, run,
}
use osassignments.Badminton.Early.{act-meet_refree}

-- Two players are with the organiser, a referee comes, and both mutexes are free.
pub record IsComplete (i : ℕ) (s : Court) : Type 0 where
  pub refree : (s.people i).is_refree ≡ true
  pub comes : (s.people i).pc ≡ in_academy
  pub two_players : s.player_with_organiser ≡ 2
  pub no_refree : s.refree_with_organiser ≡ 0
  pub free : s.meeting ≡ none
  pub unformed : s.forming_team ≡ none
  pub shut : s.flag ≡ 0

-- A player who waits for the team, at the test of `flag` or asleep.
pub record IsWaiting (j : ℕ) (s : Court) : Type 0 where
  pub player : (s.people j).is_refree ≡ false
  pub waits : ((s.people j).pc ≡ forming) ⊎ ((s.people j).pc ≡ asleep)

-- The referee has counted itself and woken those who sleep, and `flag` is still 0.
abbrev pub announced : ℕ → Court → Court
announced i s =
    move i announcing
      (record s { refree_with_organiser = 1; meeting = some i; people = λ j. stirred (s.people j) })

meet_refree-IsComplete : (i : ℕ) (s : Court) → IsComplete i s → meet_refree i s ≡ announced i s
unfolding meet_refree complete_team
meet_refree-IsComplete i s c = ground (arith, c.two_players, c.no_refree)

-- Its first turn.
pub first_turn : (i p r : ℕ) (s : Court) → IsComplete i s → act (turn i p r) s ≡ announced i s
first_turn i p r s c =
    act-meet_refree i p r s c.refree c.comes c.free ∙ meet_refree-IsComplete i s c

-- A turn at the test of `flag`.
pub turn-test_flag :
    (j p r : ℕ) (s : Court)
    → (s.people j).pc ≡ forming
    → s.forming_team ≡ none
    → act (turn j p r) s ≡ test_flag j s
unfolding act person_at team_formation form_at
turn-test_flag j p r s here free =
    ap (λ pc. person_at pc j p r s) here ∙ ap (λ m. form_at m j s) free

pub turn-open_court :
    (i p r : ℕ) (s : Court) → (s.people i).pc ≡ announcing → act (turn i p r) s ≡ open_court i p r s
unfolding act person_at
turn-open_court i p r s here = ap (λ pc. person_at pc i p r s) here

-- The court is open for the team.
pub record IsOpen (i : ℕ) (s : Court) : Type 0 where
  pub refree : (s.people i).is_refree ≡ true
  pub tests : (s.people i).pc ≡ forming
  pub no_players : s.player_with_organiser ≡ 0
  pub no_refree : s.refree_with_organiser ≡ 0
  pub free : s.meeting ≡ none
  pub unformed : s.forming_team ≡ none
  pub open_flag : s.flag ≡ 1

pub open_court-IsOpen :
    (i p r : ℕ) (s : Court)
    → (s.people i).is_refree ≡ true
    → s.forming_team ≡ none
    → IsOpen i (open_court i p r s)
unfolding open_court signal
open_court-IsOpen i p r s refree unformed = record {
  refree = ground (arith, refree);
  tests = ground arith;
  no_players = refl;
  no_refree = refl;
  free = refl;
  unformed = ground (arith, unformed);
  open_flag = refl;
}

-- Opening the court leaves a player who is not queued where it is.
pub open_court-keeps :
    (i p r j : ℕ) (s : Court)
    → i ≢ j
    → (s.people j).pc ≢ queued
    → (open_court i p r s).people j ≡ s.people j
unfolding open_court signal
open_court-keeps i p r j s ne awake = ground arith

player_passes :
    (j : ℕ) (s : Court)
    → (s.people j).is_refree ≡ false
    → s.flag ≡ 1
    → test_flag j s ≡ move j at_court s
unfolding test_flag
player_passes j s player flag = ground (arith, player, flag)

pub refree_passes :
    (i : ℕ) (s : Court)
    → (s.people i).is_refree ≡ true
    → s.flag ≡ 1
    → test_flag i s ≡ move i at_court (record s { flag = 0 })
unfolding test_flag
refree_passes i s refree flag = ground (arith, refree, flag)

-- After both turns of the referee.
abbrev opened : ℕ → ℕ → ℕ → Court → Court
opened i p r s = open_court i p r (announced i s)

two_turns :
    (i p r : ℕ) (s : Court) → IsComplete i s → run (turn i p r ∷ turn i p r ∷ []) s ≡ opened i p r s
unfolding run
two_turns i p r s c =
    ap (act (turn i p r)) (first_turn i p r s c)
    ∙ turn-open_court i p r (announced i s) (ground arith)

opened-IsOpen : (i p r : ℕ) (s : Court) → IsComplete i s → IsOpen i (opened i p r s)
unfolding stirred
opened-IsOpen i p r s c =
    open_court-IsOpen i p r (announced i s) (ground (arith, c.refree)) c.unformed

-- A player of the team is at the test of `flag` then.
opened-waiting :
    (i p r j : ℕ) (s : Court)
    → i ≢ j
    → IsWaiting j s
    → (((opened i p r s).people j).pc ≡ forming) × (((opened i p r s).people j).is_refree ≡ false)
unfolding stirred
opened-waiting i p r j s ne w =
    let there : ((announced i s).people j).pc ≡ forming = ground (arith, w.waits, ne) in
    let kept : (opened i p r s).people j ≡ (announced i s).people j =
      open_court-keeps i p r j (announced i s) ne (λ h. cc) in
    (ap (λ q. q.pc) kept ∙ there, ap (λ q. q.is_refree) kept ∙ ground (arith, w.player, ne))

-- The turns of two players and of the referee where the court is open for them.
three_pass :
    (i j k p r : ℕ) (s : Court)
    → i ≢ j
    → i ≢ k
    → j ≢ k
    → IsOpen i s
    → (s.people j).pc ≡ forming
    → (s.people k).pc ≡ forming
    → (s.people j).is_refree ≡ false
    → (s.people k).is_refree ≡ false
    → run (turn j p r ∷ turn k p r ∷ turn i p r ∷ []) s
      ≡ move i at_court (record (move k at_court (move j at_court s)) { flag = 0 })
unfolding run
three_pass i j k p r s ij ik jk o hj hk pj pk =
    let s₁ : Court = move j at_court s in
    let s₂ : Court = move k at_court s₁ in
    ap (λ t. act (turn i p r) (act (turn k p r) t))
      (turn-test_flag j p r s hj o.unformed ∙ player_passes j s pj o.open_flag)
    ∙ ap (act (turn i p r)) (
        turn-test_flag k p r s₁ (ground (arith, hk)) o.unformed
        ∙ player_passes k s₁ (ground (arith, pk)) o.open_flag)
    ∙ turn-test_flag i p r s₂ (ground (arith, o.tests)) o.unformed
    ∙ refree_passes i s₂ (ground (arith, o.refree)) o.open_flag

-- A team can play: from a state where a referee comes to two players, and whatever threads its
-- signals wake, its two turns, those of both players and its own bring all three into the court. `flag`
-- is 0 again then, and the organiser is free for the next team.
pub team_plays :
    (i j k p r : ℕ) (s : Court)
    → i ≢ j
    → i ≢ k
    → j ≢ k
    → IsComplete i s
    → IsWaiting j s
    → IsWaiting k s
    → let t = run (turn i p r ∷ turn i p r ∷ turn j p r ∷ turn k p r ∷ turn i p r ∷ []) s in
      ((t.people i).pc ≡ at_court)
      × ((t.people j).pc ≡ at_court)
      × ((t.people k).pc ≡ at_court)
      × (t.flag ≡ 0)
      × (t.player_with_organiser ≡ 0)
      × (t.refree_with_organiser ≡ 0)
unfolding run
team_plays i j k p r s ij ik jk c wj wk =
    let o : Court = opened i p r s in
    let here_j = opened-waiting i p r j s ij wj in
    let here_k = opened-waiting i p r k s ik wk in
    let shown = opened-IsOpen i p r s c in
    rw
      (
        two_turns i p r s c,
        three_pass i j k p r o ij ik jk shown here_j.0 here_k.0 here_j.1 here_k.1,
      )
      (ground arith, ground arith, ground arith, refl, shown.no_players, shown.no_refree)
