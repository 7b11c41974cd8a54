-- ===== src/Shell/Reminder/Laws.antt =====
-- Assignment3/wonderShell/wonderShell.c: a reminder is printed once, and not before its time.
use osassignments.Common.{◌≡◌, refl, true, false, List, [], ◌∷◌, ◌++◌, arith}
use osassignments.Common.Int.{ℤ, pos, ◌≤ℤ◌, ◌<ℤ◌, ◌-ℤ◌, ◌+ℤ◌, leb_ℤ, ltb_ℤ, +ℤ_parts, -ℤ_parts}
use osassignments.Shell.Text.{Text, text}
use osassignments.Shell.Number.{strtol}
use osassignments.Shell.Reminder.{Alarm, chk_alarm, set_alarm}

-- While the delay runs.
waits :
    (now st delay : ℤ)
    → st ≤ℤ now
    → now <ℤ (st +ℤ delay)
    → (leb_ℤ delay (now -ℤ st) ≡ false) × (ltb_ℤ (now -ℤ st) (pos 0) ≡ false)
waits now st delay le lt = ground (arith, +ℤ_parts st delay, -ℤ_parts now st)

-- When it has passed.
ends : (now st delay : ℤ) → (st +ℤ delay) ≤ℤ now → leb_ℤ delay (now -ℤ st) ≡ true
ends now st delay le = ground (arith, +ℤ_parts st delay, -ℤ_parts now st)

-- While a reminder waits no other one is set.
set_again :
    (at : ℤ) (list : List Text) (a : Alarm) → a.time_vld ≡ true → (set_alarm at list a).0 ≡ a
unfolding set_alarm
set_again at [] a h = refl
set_again at (name ∷ []) a h = refl
set_again at (name ∷ delay ∷ []) a h = refl
set_again at (name ∷ delay ∷ word ∷ words) a h = rw h refl

-- A reminder that is set at the time `start` over an idle alarm, and looked at at the time `now`,
-- not before `start`. Until its delay has passed nothing is printed and it stays as it is. From
-- then on its message is printed, and the alarm is idle with no message left: the next look
-- prints nothing. While it waits, setting another one, with whatever words and at whatever time,
-- changes nothing.
pub reminder_once :
    (start now later : ℤ) (name delay word : Text) (words : List Text) (idle : Alarm)
    → idle.time_vld ≡ false
    → start ≤ℤ now
    → let a = (set_alarm start (name ∷ delay ∷ word ∷ words) idle).0 in
      (now <ℤ (start +ℤ strtol delay)
        → (chk_alarm now a ≡ (a, [])) × ((at : ℤ) (list : List Text) → (set_alarm at list a).0 ≡ a))
      × ((start +ℤ strtol delay) ≤ℤ now
          → ((chk_alarm now a).1 ≡ (text "Reaminder:" ++ a.msg) ∷ [])
            × ((chk_alarm now a).0.time_vld ≡ false)
            × ((chk_alarm now a).0.msg ≡ [])
            × ((chk_alarm later (chk_alarm now a).0).1 ≡ []))
unfolding chk_alarm set_alarm
reminder_once start now later name delay word words idle off le = rw off (
  λ early.
      let w = waits now start (strtol delay) le early in
      (rw (w.0, w.1) refl, λ at list. set_again at list _ refl),
  λ late. rw (ends now start (strtol delay) late) (refl, refl, refl, refl),
)
