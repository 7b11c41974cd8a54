-- ===== src/Badminton/Court.antt =====
-- Assignment4/q1.c: the threads of players and referees, run in any order.
--
-- What a thread does while it holds a mutex is one step, but for two places. A referee who completes
-- a team wakes the others before it sets `flag`, which they read under another mutex; and a thread
-- that has read `flag` is not yet asleep. Between the two parts the thread keeps its mutex:
-- `meetOrganiserMutex` has the owner `meeting`, `teamFormationMutex` the owner `forming_team`. The
-- mutexes that are not initialised are taken for free ones. Messages are left out.
use osassignments.Common.{
  ℕ, suc, Bool, true, false, ◌&&◌, Option, none, some, List, [], ◌∷◌, ltb, ◌==◌, if◌then◌else◌,
}
use osassignments.Common.Family.{put}

abbrev pub eqb : Bool → Bool → Bool
eqb true b = b
eqb false true = false
eqb false false = true

-- Where a thread is: before `meetOrganiser`; asleep there on `condPlayer` or `condRefree`; woken
-- there; a referee between `pthread_cond_broadcast` and `flag = 1`; at the lock or the test of
-- `teamFormation`; behind a test that found `flag` 0; asleep on `condEnterCourt`; before
-- `enterCourt`; at its end.
pub data Pc : Type 0 where
  in_academy queued called announcing forming unlucky asleep at_court played : Pc

pub record Person : Type 0 where
  pub is_refree : Bool
  pub pc : Pc

pub record Court : Type 0 where
  pub player_with_organiser : ℕ
  pub refree_with_organiser : ℕ
  pub flag : ℕ
  pub meeting : Option ℕ
  pub forming_team : Option ℕ
  pub people : ℕ → Person

abbrev pub move : ℕ → Pc → Court → Court
move i pc s = record s { people = put s.people i (record (s.people i) { pc = pc }) }

-- A thread that sleeps returns from `pthread_cond_wait` to the lock of its mutex.
unfoldable pub woken : Pc → Pc
woken queued = called
woken asleep = forming
woken pc = pc

-- `pthread_cond_broadcast(&condEnterCourt)`
unfoldable pub stirred : Person → Person
stirred p = record p { pc = elim p.pc [ asleep ↦ forming | pc ↦ pc ] }

abbrev pub broadcast : Court → Court
broadcast s = record s { people = λ j. stirred (s.people j) }

-- `meetOrganiser` of a player, from the lock or from a return of `pthread_cond_wait`.
unfoldable pub meet_player : ℕ → Court → Court
meet_player i s =
    if s.player_with_organiser == 2
    then move i queued s
    else if ltb s.player_with_organiser 2
    then move i forming (record s { player_with_organiser = suc s.player_with_organiser })
    else move i forming s

-- `if (refreeWithOrganiser == 1 && playerWithOrganiser == 2)`, for a referee.
unfoldable pub complete_team : ℕ → Court → Court
unfolding stirred
complete_team i s =
    if s.refree_with_organiser == 1 && s.player_with_organiser == 2
    then move i announcing (broadcast (record s { meeting = some i }))
    else move i forming s

unfoldable pub meet_refree : ℕ → Court → Court
unfolding complete_team
meet_refree i s =
    if s.refree_with_organiser == 1
    then move i queued s
    else if s.refree_with_organiser == 0
    then complete_team i (record s { refree_with_organiser = 1 })
    else complete_team i s

unfoldable pub meet_as : Bool → ℕ → Court → Court
unfolding meet_player meet_refree
meet_as true i s = meet_refree i s
meet_as false i s = meet_player i s

-- A thread waits for the mutex while another one holds it.
unfoldable pub meet_at : Option ℕ → ℕ → Court → Court
unfolding meet_as
meet_at none i s = meet_as (s.people i).is_refree i s
meet_at (some owner) i s = s

unfoldable pub meet_organiser : ℕ → Court → Court
unfolding meet_at
meet_organiser i s = meet_at s.meeting i s

-- `pthread_cond_signal` of `condRefree` (or of `condPlayer`), where it wakes thread `j`, if that one
-- sleeps there.
unfoldable pub signal : Bool → ℕ → Court → Court
signal refree j s = elim (s.people j).pc [
  | queued ↦ if eqb refree (s.people j).is_refree then move j called s else s
  | _ ↦ s
]

-- From `flag = 1` to the end of `meetOrganiser`; the signals wake `p` and `r`.
unfoldable pub open_court : ℕ → ℕ → ℕ → Court → Court
unfolding signal
open_court i p r s = move i forming (record (signal true r (signal false p s)) {
  flag = 1;
  refree_with_organiser = 0;
  player_with_organiser = 0;
  meeting = none;
})

-- `teamFormation` from its lock, or from a return of `pthread_cond_wait`, to the test of `flag`,
-- and where it is set to the end.
unfoldable pub test_flag : ℕ → Court → Court
test_flag i s =
    if s.flag == 0
    then move i unlucky (record s { forming_team = some i })
    else move i at_court (if (s.people i).is_refree then record s { flag = 0 } else s)

unfoldable pub form_at : Option ℕ → ℕ → Court → Court
unfolding test_flag
form_at none i s = test_flag i s
form_at (some owner) i s = s

unfoldable pub team_formation : ℕ → Court → Court
unfolding form_at
team_formation i s = form_at s.forming_team i s

-- `refree` and `player`, up to the next point at which another thread may run.
unfoldable pub person_at : Pc → ℕ → ℕ → ℕ → Court → Court
unfolding meet_organiser open_court team_formation
person_at in_academy i p r s = meet_organiser i s
person_at queued i p r s = s
person_at called i p r s = meet_organiser i s
person_at announcing i p r s = open_court i p r s
person_at forming i p r s = team_formation i s
person_at unlucky i p r s = move i asleep (record s { forming_team = none })
person_at asleep i p r s = s
person_at at_court i p r s = move i played s
person_at played i p r s = s

-- A turn of thread `i`, whose signals wake `p` and `r` if it gives any; or a return of thread `i` from
-- `pthread_cond_wait` without a signal.
pub data Event : Type 0 where
  turn : ℕ → ℕ → ℕ → Event
  wake_up : ℕ → Event

unfoldable pub act : Event → Court → Court
unfolding person_at woken
act (turn i p r) s = person_at (s.people i).pc i p r s
act (wake_up i) s = move i (woken (s.people i).pc) s

unfoldable pub run : List Event → Court → Court
unfolding act
run [] s = s
run (e ∷ es) s = run es (act e s)

-- What `main` sets up, where `is_refree` says who is a referee.
unfoldable pub court_new : (ℕ → Bool) → Court
court_new is_refree = record {
  player_with_organiser = 0;
  refree_with_organiser = 0;
  flag = 0;
  meeting = none;
  forming_team = none;
  people = λ i. record { is_refree = is_refree i; pc = in_academy };
}
