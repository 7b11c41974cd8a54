-- ===== src/Station/Examples.antt =====
-- Assignment4/q1_temp.c: the theorems on the station at concrete inputs.
use osassignments.Common.{ℕ, ◌+◌, ◌*◌, ◌≤◌, ◌≡◌, refl, true, List, [], ◌∷◌, ltb, ◌==◌}
use osassignments.Common.Family.{tally}
use osassignments.Station.Defs.{Thread, entrance, car, attender, run, station_new}
use osassignments.Station.Queue.{is_past, is_first, cars_in_order}
use osassignments.Station.Money.{givers, leavers, money_counts}

-- Two cars come, the first one takes its place and goes to pay, the second comes to the pump.
abbrev two_came : List Thread
two_came = entrance ∷ entrance ∷ car 0 ∷ car 0 ∷ car 0 ∷ car 1 ∷ []

-- The first car's payment has been accepted.
abbrev one_paid : List Thread
one_paid = entrance ∷ car 0 ∷ car 0 ∷ car 0 ∷ attender 2 ∷ attender 2 ∷ car 0 ∷ attender 2 ∷ []

cars_in_order_example :
    let s = run two_came (station_new 3) in
    ((i : ℕ) → is_past (s.cars i) ≡ ltb i s.que_low)
    × ((i : ℕ) → is_first (s.cars i) ≡ true → i ≡ s.que_low)
    × (s.que_low ≤ s.que_high)
    × (s.que_high ≤ s.que_low + 4)
    × (s.serving ≤ 3)
cars_in_order_example = cars_in_order 3 two_came

money_counts_example :
    let s = run one_paid (station_new 3) in
    (givers 3 s + tally (s.atm_busy == 0) ≡ 1)
    × (s.atm_busy ≤ 2)
    × (s.atm ≡ 100 * (leavers 3 s + tally (s.atm_busy == 2)))
money_counts_example = money_counts 3 one_paid

-- The machine holds the first payment.
paid_once : (run one_paid (station_new 3)).atm ≡ 100
unfolding run station_new
paid_once = refl
