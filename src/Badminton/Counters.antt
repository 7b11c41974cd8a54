-- ===== src/Badminton/Counters.antt =====
-- Assignment4/q1.c: how many players and referees the organiser has.
use osassignments.Common.{
  ℕ, ◌≤◌, ◌≡◌, ◌≢◌, refl, Bool, true, false, Option, none, some, List, [], ◌∷◌, arith,
}
use osassignments.Badminton.Court.{
  Pc, in_academy, queued, called, announcing, forming, unlucky, asleep, at_court, played, Court,
  move, woken, stirred, meet_player, complete_team, meet_refree, meet_as, meet_at, meet_organiser,
  signal, open_court, test_flag, form_at, team_formation, person_at, Event, turn, wake_up, act, run,
  court_new,
}

-- Between the steps.
pub record CourtInv (s : Court) : Type 0 where
  pub few_players : s.player_with_organiser ≤ 2
  pub one_refree : s.refree_with_organiser ≤ 1
  pub small_flag : s.flag ≤ 1
  pub announces : (i : ℕ) → (s.people i).pc ≡ announcing → s.meeting ≡ some i
  pub full :
      (i : ℕ)
      → s.meeting ≡ some i
      → (s.player_with_organiser ≡ 2)
        × (s.refree_with_organiser ≡ 1)
        × ((s.people i).pc ≡ announcing)
        × ((s.people i).is_refree ≡ true)

module _ {s : Court} (inv : CourtInv s) where
  open inv use {few_players, one_refree, small_flag, announces, full}

  meet_player-CourtInv : (i : ℕ) → s.meeting ≡ none → CourtInv (meet_player i s)
  unfolding meet_player
  meet_player-CourtInv i m = record {
    few_players = ground (arith, few_players);
    one_refree = ground (arith, one_refree);
    small_flag = ground (arith, small_flag);
    announces = λ j h. ground (arith, announces j);
    full = λ j h. ground (arith, full j);
  }

  -- A thread that goes elsewhere, and neither announces a team nor did so before.
  move-CourtInv :
      (i : ℕ) (pc : Pc) → (s.people i).pc ≢ announcing → pc ≢ announcing → CourtInv (move i pc s)
  move-CourtInv i pc from to = record {
    few_players = few_players;
    one_refree = one_refree;
    small_flag = small_flag;
    announces = λ j h. ground (arith, announces j, from, to);
    full = λ j h. ground (arith, full j, from, to);
  }

  meet_refree-CourtInv :
      (i : ℕ) → s.meeting ≡ none → (s.people i).is_refree ≡ true → CourtInv (meet_refree i s)
  unfolding meet_refree complete_team stirred
  meet_refree-CourtInv i m r = record {
    few_players = ground (arith, few_players);
    one_refree = ground (arith, one_refree);
    small_flag = ground (arith, small_flag);
    announces = λ j h. ground (arith, announces j, announces i);
    full = λ j h. ground (arith, full j);
  }

  open_court-CourtInv : (i p r : ℕ) → (s.people i).pc ≡ announcing → CourtInv (open_court i p r s)
  unfolding open_court signal
  open_court-CourtInv i p r h = record {
    few_players = ground arith;
    one_refree = ground arith;
    small_flag = ground arith;
    announces = λ j k. ground (arith, announces j, announces i);
    full = λ j k. ground arith;
  }

  test_flag-CourtInv : (i : ℕ) → (s.people i).pc ≡ forming → CourtInv (test_flag i s)
  unfolding test_flag
  test_flag-CourtInv i h = record {
    few_players = ground (arith, few_players);
    one_refree = ground (arith, one_refree);
    small_flag = ground (arith, small_flag);
    announces = λ j k. ground (arith, announces j);
    full = λ j k. ground (arith, full j);
  }

  meet_as-CourtInv :
      (b : Bool) (i : ℕ) → s.meeting ≡ none → (s.people i).is_refree ≡ b → CourtInv (meet_as b i s)
  unfolding meet_as
  meet_as-CourtInv true i free r = meet_refree-CourtInv i free r
  meet_as-CourtInv false i free r = meet_player-CourtInv i free

  meet_at-CourtInv : (m : Option ℕ) (i : ℕ) → s.meeting ≡ m → CourtInv (meet_at m i s)
  unfolding meet_at
  meet_at-CourtInv none i free = meet_as-CourtInv (s.people i).is_refree i free refl
  meet_at-CourtInv (some owner) i held = inv

  meet_organiser-CourtInv : (i : ℕ) → CourtInv (meet_organiser i s)
  unfolding meet_organiser
  meet_organiser-CourtInv i = meet_at-CourtInv s.meeting i refl

  form_at-CourtInv : (m : Option ℕ) (i : ℕ) → (s.people i).pc ≡ forming → CourtInv (form_at m i s)
  unfolding form_at
  form_at-CourtInv none i h = test_flag-CourtInv i h
  form_at-CourtInv (some owner) i h = inv

  team_formation-CourtInv : (i : ℕ) → (s.people i).pc ≡ forming → CourtInv (team_formation i s)
  unfolding team_formation
  team_formation-CourtInv i h = form_at-CourtInv s.forming_team i h

  person_at-CourtInv :
      (pc : Pc) (i p r : ℕ) → (s.people i).pc ≡ pc → CourtInv (person_at pc i p r s)
  unfolding person_at
  person_at-CourtInv in_academy i p r h = meet_organiser-CourtInv i
  person_at-CourtInv queued i p r h = inv
  person_at-CourtInv called i p r h = meet_organiser-CourtInv i
  person_at-CourtInv announcing i p r h = open_court-CourtInv i p r h
  person_at-CourtInv forming i p r h = team_formation-CourtInv i h
  person_at-CourtInv unlucky i p r h = record {
    few_players = few_players;
    one_refree = one_refree;
    small_flag = small_flag;
    announces = λ j k. ground (arith, announces j);
    full = λ j k. ground (arith, full j);
  }
  person_at-CourtInv asleep i p r h = inv
  person_at-CourtInv at_court i p r h = move-CourtInv i played (λ k. cc) (λ k. cc)
  person_at-CourtInv played i p r h = inv

  wake_up-CourtInv : (i : ℕ) → CourtInv (move i (woken (s.people i).pc) s)
  unfolding woken
  wake_up-CourtInv i = record {
    few_players = few_players;
    one_refree = one_refree;
    small_flag = small_flag;
    announces = λ j k. ground (arith, announces j);
    full = λ j k. ground (arith, full j);
  }

  pub act-CourtInv : (e : Event) → CourtInv (act e s)
  unfolding act
  act-CourtInv (turn i p r) = person_at-CourtInv (s.people i).pc i p r refl
  act-CourtInv (wake_up i) = wake_up-CourtInv i

run-CourtInv : (es : List Event) (s : Court) → CourtInv s → CourtInv (run es s)
unfolding run
run-CourtInv [] s inv = inv
run-CourtInv (e ∷ es) s inv = run-CourtInv es (act e s) (act-CourtInv inv e)

pub court_new-CourtInv : (is_refree : ℕ → Bool) → CourtInv (court_new is_refree)
unfolding court_new
court_new-CourtInv is_refree = record {
  few_players = omega arith;
  one_refree = omega arith;
  small_flag = omega arith;
  announces = λ i h. cc;
  full = λ i h. cc;
}

-- Under every schedule, and whatever threads the signals wake, the organiser never has more than two
-- players or one referee, `flag` is 0 or 1, and a thread that holds `meetOrganiserMutex` between two
-- steps is a referee who has found two players: at most one thread at a time opens the court.
pub reached-CourtInv :
    (is_refree : ℕ → Bool) (es : List Event) → CourtInv (run es (court_new is_refree))
reached-CourtInv is_refree es = run-CourtInv es (court_new is_refree) (court_new-CourtInv is_refree)
