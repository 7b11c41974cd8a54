-- ===== src/Badminton/Early.antt =====
-- Assignment4/q1.c: a referee who meets the organiser before two players are there ends the game.
--
-- Only a referee who finds two players opens the court, and while one waits for them no other gets
-- past `while (refreeWithOrganiser == 1)`.
use osassignments.Common.{ℕ, ◌≡◌, ap, ◌∙◌, Bool, true, false, none}
use osassignments.Badminton.Court.{
  Pc, in_academy, at_court, played, Court, meet_refree, meet_as, meet_at, meet_organiser, person_at,
  turn, act,
}

-- The thread has come through `teamFormation`.
unfoldable pub in_court : Pc → Bool
in_court at_court = true
in_court played = true
in_court _ = false

-- A referee is with the organiser, nobody opens the court, and those in the court are the ones in
-- `was`.
record Closed (was : ℕ → Bool) (s : Court) : Type 0 where
  has_refree : s.refree_with_organiser ≡ 1
  free : s.meeting ≡ none
  shut : s.flag ≡ 0
  enters : (j : ℕ) → in_court (s.people j).pc ≡ was j

-- A turn of a referee at `meetOrganiser`, where the mutex is free.
pub act-meet_refree :
    (i p r : ℕ) (s : Court)
    → (s.people i).is_refree ≡ true
    → (s.people i).pc ≡ in_academy
    → s.meeting ≡ none
    → act (turn i p r) s ≡ meet_refree i s
unfolding act person_at meet_organiser meet_at meet_as
act-meet_refree i p r s refree here free =
    ap (λ pc. person_at pc i p r s) here
    ∙ ap (λ m. meet_at m i s) free
    ∙ ap (λ b. meet_as b i s) refree
