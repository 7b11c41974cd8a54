-- ===== src/Badminton/Plan.antt =====
-- Assignment4/q1.c: what the organiser promises, and that the threads keep to it.
--
-- The plan says, for each visit of a player or a referee to the organiser, who is there behind it. It
-- knows no mutex, no wake-up and no flag, and a team leaves in one step.
use osassignments.Common.{
  if◌then◌else◌, ltb, ◌==◌, ℕ, suc, ◌≡◌, refl, Bool, true, false, Option, none, some, List,
  ==-cases, arith, inl, inr,
}
use osassignments.Badminton.Court.{
  Pc, in_academy, queued, called, announcing, forming, unlucky, asleep, at_court, played, Court,
  meet_player, complete_team, meet_refree, meet_as, meet_at, meet_organiser, open_court, test_flag,
  form_at, team_formation, person_at, Event, turn, wake_up, act, run, court_new,
}
use osassignments.Badminton.Counters.{CourtInv, reached-CourtInv}

-- Who is with the organiser.
pub record Table : Type 0 where
  pub players : ℕ
  pub refrees : ℕ

abbrev pub empty_table : Table
empty_table = record { players = 0; refrees = 0 }

-- A visit to the organiser, by a referee if `true`, or none.
unfoldable pub plan : Option Bool → Table → Table
plan none t = t
plan (some false) t = if ltb t.players 2 then record t { players = suc t.players } else t
plan (some true) t =
    if ltb 0 t.refrees then t else if t.players == 2 then empty_table else record t { refrees = 1 }

-- The organiser behind the counters. While a team is announced, it has left already.
unfoldable pub view_at : Option ℕ → Court → Table
view_at none s = record { players = s.player_with_organiser; refrees = s.refree_with_organiser }
view_at (some owner) s = empty_table

unfoldable pub view : Court → Table
unfolding view_at
view s = view_at s.meeting s

-- A thread comes to the organiser unless another one keeps the organiser's mutex.
unfoldable pub visit_by : Option ℕ → Bool → Option Bool
visit_by none is_refree = some is_refree
visit_by (some owner) is_refree = none

unfoldable pub visit_at : Pc → ℕ → Court → Option Bool
unfolding visit_by
visit_at in_academy i s = visit_by s.meeting (s.people i).is_refree
visit_at queued i s = none
visit_at called i s = visit_by s.meeting (s.people i).is_refree
visit_at announcing i s = none
visit_at forming i s = none
visit_at unlucky i s = none
visit_at asleep i s = none
visit_at at_court i s = none
visit_at played i s = none

-- Whose visit an event is: a turn of a thread that is in the academy, or was called back.
unfoldable pub visit : Event → Court → Option Bool
unfolding visit_at
visit (turn i p r) s = visit_at (s.people i).pc i s
visit (wake_up i) s = none

module _ {s : Court} (inv : CourtInv s) where
  meet_player-plan :
      (i : ℕ) → s.meeting ≡ none → view (meet_player i s) ≡ plan (some false) (view s)
  unfolding meet_player view view_at plan
  meet_player-plan i free = ground (arith, inv.few_players)

  meet_refree-plan : (i : ℕ) → s.meeting ≡ none → view (meet_refree i s) ≡ plan (some true) (view s)
  unfolding meet_refree complete_team view view_at plan
  meet_refree-plan i free = elim (==-cases s.refree_with_organiser 1) [
    | inl (t, e) ↦ ground arith
    | inr (t, n) ↦ elim (==-cases s.player_with_organiser 2) [
      | inl (u, two) ↦ ground (arith, inv.one_refree)
      | inr (u, few) ↦ ground (arith, inv.one_refree)
    ]
  ]

  meet_as-plan :
      (b : Bool) (i : ℕ) → s.meeting ≡ none → view (meet_as b i s) ≡ plan (some b) (view s)
  unfolding meet_as
  meet_as-plan true i free = meet_refree-plan i free
  meet_as-plan false i free = meet_player-plan i free

  meet_at-plan :
      (m : Option ℕ) (i : ℕ)
      → s.meeting ≡ m
      → view (meet_at m i s) ≡ plan (visit_by m (s.people i).is_refree) (view s)
  unfolding meet_at visit_by plan view
  meet_at-plan none i free = meet_as-plan (s.people i).is_refree i free
  meet_at-plan (some owner) i held = refl

  form_at-view : (m : Option ℕ) (i : ℕ) → view (form_at m i s) ≡ view s
  unfolding form_at test_flag view
  form_at-view none i = ground arith
  form_at-view (some owner) i = refl

  open_court-view : (i p r : ℕ) → (s.people i).pc ≡ announcing → view (open_court i p r s) ≡ view s
  unfolding open_court view view_at
  open_court-view i p r h = rw (inv.announces i h) refl

  person_at-plan :
      (pc : Pc) (i p r : ℕ)
      → (s.people i).pc ≡ pc
      → view (person_at pc i p r s) ≡ plan (visit_at pc i s) (view s)
  unfolding person_at meet_organiser team_formation visit_at plan view view_at
  person_at-plan in_academy i p r h = meet_at-plan s.meeting i refl
  person_at-plan queued i p r h = refl
  person_at-plan called i p r h = meet_at-plan s.meeting i refl
  person_at-plan announcing i p r h = open_court-view i p r h
  person_at-plan forming i p r h = form_at-view s.forming_team i
  person_at-plan unlucky i p r h = ground arith
  person_at-plan asleep i p r h = refl
  person_at-plan at_court i p r h = ground arith
  person_at-plan played i p r h = refl

  act-plan : (e : Event) → view (act e s) ≡ plan (visit e s) (view s)
  unfolding act visit view view_at plan
  act-plan (turn i p r) = person_at-plan (s.people i).pc i p r refl
  act-plan (wake_up i) = ground arith

-- In every state that a schedule reaches, an event does to those with the organiser what the plan does
-- for its visit, and nothing where it is none: a player joins fewer than two, a referee goes back to
-- wait if there is one, takes two players away if there are two, and else stays.
pub act-refines-plan :
    (is_refree : ℕ → Bool) (es : List Event) (e : Event)
    → let s = run es (court_new is_refree) in view (act e s) ≡ plan (visit e s) (view s)
act-refines-plan is_refree es e = act-plan (reached-CourtInv is_refree es) e
