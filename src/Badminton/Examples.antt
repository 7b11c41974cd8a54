-- ===== src/Badminton/Examples.antt =====
-- Assignment4/q1.c: the theorems on the court at concrete inputs.
use osassignments.Common.{some, ℕ, ◌≡◌, refl, Bool, List, [], ◌∷◌, ◌++◌, ◌==◌, inl, inr}
use osassignments.Badminton.Court.{asleep, at_court, Court, Event, turn, act, run, court_new}
use osassignments.Badminton.Counters.{CourtInv, reached-CourtInv}
use osassignments.Badminton.Plan.{empty_table, plan, visit, view, act-refines-plan}
use osassignments.Badminton.Teams.{IsComplete, IsWaiting, team_plays}
use osassignments.Badminton.Wake.{team_lost}
use osassignments.Badminton.Arrivals.{main_arrivals, only_players, alternate}
use osassignments.Badminton.Arrivals.Laws.{main_arrivals_lem}

-- Thread 0 is a referee, the others are players.
abbrev first_is_refree : ℕ → Bool
first_is_refree i = i == 0

-- Two players have met the organiser, and one of them sleeps.
abbrev two_came : List Event
two_came = turn 1 0 0 ∷ turn 2 0 0 ∷ turn 1 0 0 ∷ turn 1 0 0 ∷ []

abbrev two_players : Court
two_players = run two_came (court_new first_is_refree)

reached-CourtInv_example : CourtInv two_players
reached-CourtInv_example = reached-CourtInv first_is_refree two_came

-- The referee takes the two players away.
act-refines-plan_example : view (act (turn 0 0 0) two_players) ≡ empty_table
unfolding run court_new plan visit view
act-refines-plan_example = act-refines-plan first_is_refree two_came (turn 0 0 0)

complete : IsComplete 0 two_players
unfolding run court_new
complete = record {
  refree = refl;
  comes = refl;
  two_players = refl;
  no_refree = refl;
  free = refl;
  unformed = refl;
  shut = refl;
}

first_waits : IsWaiting 1 two_players
unfolding run court_new
first_waits = record { player = refl; waits = inr refl }

second_waits : IsWaiting 2 two_players
unfolding run court_new
second_waits = record { player = refl; waits = inl refl }

team_plays_example :
    let t = run (turn 0 0 0 ∷ turn 0 0 0 ∷ turn 1 0 0 ∷ turn 2 0 0 ∷ turn 0 0 0 ∷ []) two_players in
    ((t.people 0).pc ≡ at_court)
    × ((t.people 1).pc ≡ at_court)
    × ((t.people 2).pc ≡ at_court)
    × (t.flag ≡ 0)
    × (t.player_with_organiser ≡ 0)
    × (t.refree_with_organiser ≡ 0)
team_plays_example =
    team_plays 0 1 2 0 0 two_players (λ e. cc) (λ e. cc) (λ e. cc) complete first_waits second_waits

team_lost_example :
    let t = run (turn 0 0 0 ∷ turn 2 0 0 ∷ turn 2 0 0 ∷ turn 0 0 0 ∷ turn 0 0 0 ∷ []) two_players in
    ((t.people 0).pc ≡ at_court)
    × ((t.people 2).pc ≡ asleep)
    × (t.flag ≡ 0)
    × (t.player_with_organiser ≡ 0)
    × (t.refree_with_organiser ≡ 0)
team_lost_example = team_lost 0 2 0 0 two_players (λ e. cc) complete second_waits

main_arrivals_lem_example :
    main_arrivals 7 2
    ≡ some (record {
      no_player = 0;
      no_refree = 0;
      players = 4;
      refrees = 2;
      flg = 1;
      started = only_players 3 ++ alternate 1;
    })
main_arrivals_lem_example = main_arrivals_lem 1 1
