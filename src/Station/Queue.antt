-- ===== src/Station/Queue.antt =====
-- Assignment4/q1_temp.c: the order of the cars, the length of the queue and the number at the pumps.
use osassignments.Common.{
  ℕ, ◌+◌, ◌-◌, ◌≤◌, ◌≡◌, refl, Bool, true, false, Option, none, some, List, [], ◌∷◌, ltb, arith,
  ==-cases, Bool-cases, inl, inr,
}
use osassignments.Station.Defs.{
  CarPc, absent, in_line, at_pump, at_atm, card_given, left, counting, AttenderPc, serve, accept,
  taking, Station, move_car, move_attender, enter_station, wait_in_line, go_to_pump, leave_line,
  give_card, take_card, at_mutex, car_at, serve_car, served, accept_payment, attender_at, Thread,
  entrance, car, attender, turn, run, station_new,
}

-- The car has been at the pump.
unfoldable pub is_past : CarPc → Bool
is_past at_atm = true
is_past card_given = true
is_past left = true
is_past _ = false

-- The car is at the pump.
unfoldable pub is_first : CarPc → Bool
is_first at_pump = true
is_first (counting seen) = true
is_first _ = false

pub record QueueInv (s : Station) : Type 0 where
  pub low_high : s.que_low ≤ s.que_high
  pub short : s.que_high ≤ s.que_low + 4
  pub created : (i : ℕ) → s.que_high ≤ i → s.cars i ≡ absent
  pub in_order : (i : ℕ) → is_past (s.cars i) ≡ ltb i s.que_low
  pub first : (i : ℕ) → is_first (s.cars i) ≡ true → i ≡ s.que_low
  pub few : s.serving ≤ 3
  pub holds : (i seen : ℕ) → s.cars i ≡ counting seen → (seen ≤ 2) × (s.pumping ≡ some i)
  pub takes : (a seen : ℕ) → s.attenders a ≡ taking seen → seen ≤ 3

module _ {s : Station} (inv : QueueInv s) where
  open inv use {low_high, short, created, in_order, first, few, holds, takes}

  enter_station-QueueInv : QueueInv (enter_station s)
  unfolding enter_station is_past is_first
  enter_station-QueueInv = record {
    low_high = ground (arith, low_high);
    short = ground (arith, short);
    created = λ i h. ground (arith, created i);
    in_order = λ i. ground (arith, in_order i, created i, low_high);
    first = λ i h. ground (arith, first i);
    few = ground (arith, few);
    holds = λ i seen h. ground (arith, holds i seen);
    takes = λ a seen h. ground (arith, takes a seen);
  }

  wait_in_line-QueueInv : (i : ℕ) → s.cars i ≡ in_line → QueueInv (wait_in_line i s)
  unfolding wait_in_line is_past is_first
  wait_in_line-QueueInv i h = record {
    low_high = ground (arith, low_high);
    short = ground (arith, short);
    created = λ j k. ground (arith, created j, created i);
    in_order = λ j. ground (arith, in_order j, h);
    first = λ j k. ground (arith, first j);
    few = ground (arith, few);
    holds = λ j seen k. ground (arith, holds j seen);
    takes = λ a seen k. ground (arith, takes a seen);
  }

  go_to_pump-QueueInv : (i : ℕ) → s.cars i ≡ at_pump → s.pumping ≡ none → QueueInv (go_to_pump i s)
  unfolding go_to_pump is_past is_first
  go_to_pump-QueueInv i h free = record {
    low_high = ground (arith, low_high);
    short = ground (arith, short);
    created = λ j k. ground (arith, created j, created i);
    in_order = λ j. ground (arith, in_order j, h);
    first = λ j k. ground (arith, first j, h);
    few = ground (arith, few);
    holds = λ j seen k. ground (arith, holds j seen, few);
    takes = λ a seen k. ground (arith, takes a seen);
  }

  leave_line-QueueInv : (i seen : ℕ) → s.cars i ≡ counting seen → QueueInv (leave_line i seen s)
  unfolding leave_line is_past is_first
  leave_line-QueueInv i seen h =
      let at_front : i ≡ s.que_low = first i (rw h refl) in
      record {
        low_high = ground (arith, created i, h, at_front);
        short = ground (arith, short);
        created = λ j k. ground (arith, created j, created i);
        in_order = λ j. ground (arith, in_order j, at_front);
        first = λ j k. ground (arith, first j, at_front);
        few = ground (arith, holds i seen);
        holds = λ j past k. ground (arith, holds j past, holds i seen);
        takes = λ a past k. ground (arith, takes a past);
      }

  -- A car that has been at the pump goes on, whatever becomes of the machine.
  pays-QueueInv :
      (i busy : ℕ) (pc : CarPc)
      → is_past (s.cars i) ≡ true
      → is_past pc ≡ true
      → QueueInv (move_car i pc (record s { atm_busy = busy }))
  unfolding is_past is_first
  pays-QueueInv i busy pc was is = record {
    low_high = low_high;
    short = short;
    created = λ j k. ground (arith, created j);
    in_order = λ j. ground (arith, in_order j);
    first = λ j k. ground (arith, first j);
    few = few;
    holds = λ j seen k. ground (arith, holds j seen);
    takes = takes;
  }

  give_card-QueueInv : (i : ℕ) → s.cars i ≡ at_atm → QueueInv (give_card i s)
  unfolding give_card is_past
  give_card-QueueInv i h = elim (==-cases s.atm_busy 0) [
    | inl (t, e) ↦ rw t (pays-QueueInv i 1 card_given (rw h refl) refl)
    | inr (t, e) ↦ rw t inv
  ]

  take_card-QueueInv : (i : ℕ) → s.cars i ≡ card_given → QueueInv (take_card i s)
  unfolding take_card is_past
  take_card-QueueInv i h = elim (==-cases s.atm_busy 2) [
    | inl (t, e) ↦ rw t (pays-QueueInv i 0 left (rw h refl) refl)
    | inr (t, e) ↦ rw t inv
  ]

  at_mutex-QueueInv :
      (m : Option ℕ) (t : Station) → (m ≡ none → QueueInv t) → QueueInv (at_mutex m t s)
  unfolding at_mutex
  at_mutex-QueueInv none t h = h refl
  at_mutex-QueueInv (some owner) t h = inv

  car_at-QueueInv : (pc : CarPc) (i : ℕ) → s.cars i ≡ pc → QueueInv (car_at pc i s)
  unfolding car_at
  car_at-QueueInv absent i h = inv
  car_at-QueueInv in_line i h =
      at_mutex-QueueInv s.pumping (wait_in_line i s) (λ _. wait_in_line-QueueInv i h)
  car_at-QueueInv at_pump i h =
      at_mutex-QueueInv s.pumping (go_to_pump i s) (go_to_pump-QueueInv i h)
  car_at-QueueInv (counting seen) i h = leave_line-QueueInv i seen h
  car_at-QueueInv at_atm i h = give_card-QueueInv i h
  car_at-QueueInv card_given i h = take_card-QueueInv i h
  car_at-QueueInv left i h = inv

  -- An attender does not touch the queue.
  attends-QueueInv :
      (a serving busy atm : ℕ) (owner : Option ℕ) (pc : AttenderPc)
      → serving ≤ 3
      → ((seen : ℕ) → pc ≡ taking seen → seen ≤ 3)
      → QueueInv (
          move_attender a pc
            (record s { serving = serving; atm_busy = busy; atm = atm; serving_car = owner }))
  attends-QueueInv a serving busy atm owner pc le seen_le = record {
    low_high = low_high;
    short = short;
    created = created;
    in_order = in_order;
    first = first;
    few = le;
    holds = holds;
    takes = λ b seen k. ground (arith, takes b seen, seen_le seen);
  }

  serve_car-QueueInv : (a : ℕ) → QueueInv (serve_car a s)
  unfolding serve_car
  serve_car-QueueInv a = elim (Bool-cases (ltb 0 s.serving)) [
    | inl t ↦ simp t (
        attends-QueueInv a s.serving s.atm_busy s.atm (some a) (taking s.serving) few
          (λ seen e. ground (arith, few)))
    | inr t ↦
        simp t
          (attends-QueueInv a s.serving s.atm_busy s.atm s.serving_car accept few (λ seen e. cc))
  ]

  attender_at-QueueInv :
      (pc : AttenderPc) (a : ℕ) → s.attenders a ≡ pc → QueueInv (attender_at pc a s)
  unfolding attender_at served accept_payment
  attender_at-QueueInv serve a h =
      at_mutex-QueueInv s.serving_car (serve_car a s) (λ _. serve_car-QueueInv a)
  attender_at-QueueInv (taking seen) a h =
      attends-QueueInv a (seen - 1) s.atm_busy s.atm none accept (omega (arith, takes a seen h))
        (λ n e. cc)
  attender_at-QueueInv accept a h = elim (==-cases s.atm_busy 1) [
    | inl (t, e) ↦
        rw t (attends-QueueInv a s.serving 2 (s.atm + 100) s.serving_car serve few (λ n e. cc))
    | inr (t, e) ↦ rw t inv
  ]

  pub turn-QueueInv : (t : Thread) → QueueInv (turn t s)
  unfolding turn
  turn-QueueInv entrance = enter_station-QueueInv
  turn-QueueInv (car i) = car_at-QueueInv (s.cars i) i refl
  turn-QueueInv (attender a) = elim (Bool-cases (ltb a 3)) [
    | inl t ↦ rw t (attender_at-QueueInv (s.attenders a) a refl)
    | inr t ↦ rw t inv
  ]

run-QueueInv : (ts : List Thread) (s : Station) → QueueInv s → QueueInv (run ts s)
unfolding run
run-QueueInv [] s inv = inv
run-QueueInv (t ∷ ts) s inv = run-QueueInv ts (turn t s) (turn-QueueInv inv t)

pub station_new-QueueInv : (cars : ℕ) → QueueInv (station_new cars)
unfolding station_new is_past is_first
station_new-QueueInv cars = record {
  low_high = omega arith;
  short = omega arith;
  created = λ i h. refl;
  in_order = λ i. ground arith;
  first = λ i h. cc;
  few = omega arith;
  holds = λ i seen h. cc;
  takes = λ a seen h. cc;
}

-- Under every schedule the cars are at the pumps in the order in which they came: those that have
-- been there are the ones with the numbers below `queLow`, and only the car with that number is at a
-- pump. At most four cars are in the queue, and `serving` is 3 at most.
pub cars_in_order :
    (cars : ℕ) (ts : List Thread)
    → let s = run ts (station_new cars) in
      ((i : ℕ) → is_past (s.cars i) ≡ ltb i s.que_low)
      × ((i : ℕ) → is_first (s.cars i) ≡ true → i ≡ s.que_low)
      × (s.que_low ≤ s.que_high)
      × (s.que_high ≤ s.que_low + 4)
      × (s.serving ≤ 3)
cars_in_order cars ts =
    let inv = run-QueueInv ts (station_new cars) (station_new-QueueInv cars) in
    (inv.in_order, inv.first, inv.low_high, inv.short, inv.few)
