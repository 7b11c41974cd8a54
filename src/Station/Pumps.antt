-- ===== src/Station/Pumps.antt =====
-- Assignment4/q1_temp.c: the number at the pumps, from `goToPump` and `serveCar`.
use osassignments.Common.{ℕ, ◌+◌, ◌<◌, ◌≡◌, none, [], ◌∷◌, arith}
use osassignments.Station.Defs.{
  at_pump, serve, Station, go_to_pump, leave_line, at_mutex, car_at, serve_car, served, attender_at,
  car, attender, turn, run,
}

-- An attender and a car change `serving` under different mutexes. From a state with one or two cars
-- counted, in which the attender `a` is about to serve, the car `i` is at the pump and both mutexes are
-- free, `serving` is as before if the attender is done when the car begins; if the car comes and goes
-- between the attender's reading and its writing, the car is not counted.
serving_lost :
    (a i : ℕ) (s : Station)
    → a < 3
    → s.attenders a ≡ serve
    → s.cars i ≡ at_pump
    → s.pumping ≡ none
    → s.serving_car ≡ none
    → 0 < s.serving
    → s.serving < 3
    → ((run (attender a ∷ attender a ∷ car i ∷ car i ∷ []) s).serving ≡ s.serving)
      × ((run (attender a ∷ car i ∷ car i ∷ attender a ∷ []) s).serving + 1 ≡ s.serving)
unfolding run turn attender_at car_at serve_car served go_to_pump leave_line at_mutex
serving_lost a i s lt h k free idle pos small =
    (ground (arith, h, k, free, idle), ground (arith, h, k, free, idle))
