-- ===== src/Station/Money.antt =====
-- Assignment4/q1_temp.c: the cash machine, from `pay` and `acceptPayment`.
use osassignments.Common.{
  ℕ, suc, ◌+◌, ◌-◌, ◌*◌, ◌≤◌, ◌<◌, ◌≡◌, ◌≢◌, refl, Bool, true, false, ◌&&◌, Option, none, some,
  List, [], ◌∷◌, ltb, leb, ◌==◌, arith, ==-cases, Bool-cases, inl, inr,
}
use osassignments.Common.Family.{tally, how_many, how_many-put, how_many-put_same, how_many-zero}
use osassignments.Station.Defs.{
  CarPc, absent, in_line, at_pump, at_atm, card_given, left, counting, AttenderPc, serve, accept,
  taking, Station, move_car, move_attender, enter_station, wait_in_line, go_to_pump, leave_line,
  give_card, take_card, at_mutex, car_at, serve_car, served, accept_payment, attender_at, Thread,
  entrance, car, attender, turn, run, station_new,
}

unfoldable pub has_given : CarPc → Bool
has_given card_given = true
has_given _ = false

unfoldable pub has_left : CarPc → Bool
has_left left = true
has_left _ = false

-- Among cars with numbers below `n`.
unfoldable pub givers : ℕ → Station → ℕ
givers n s = how_many has_given n s.cars

unfoldable pub leavers : ℕ → Station → ℕ
leavers n s = how_many has_left n s.cars

pub record MoneyInv (n : ℕ) (s : Station) : Type 0 where
  pub length : s.car_length ≡ n
  pub high : s.que_high ≤ n
  pub fresh : (i : ℕ) → s.que_high ≤ i → s.cars i ≡ absent
  pub one_giver : givers n s + tally (s.atm_busy == 0) ≡ 1
  pub states : s.atm_busy ≤ 2
  pub paid : s.atm ≡ 100 * (leavers n s + tally (s.atm_busy == 2))

module _ {n : ℕ} {s : Station} (inv : MoneyInv n s) where
  open inv use {length, high, fresh, one_giver, states, paid}

  present : (i : ℕ) (pc : CarPc) → s.cars i ≡ pc → pc ≢ absent → i < s.que_high
  present i pc e h = elim (Bool-cases (ltb i s.que_high)) [
    | inl t ↦ ground (arith, t)
    | inr t ↦ absurd (h (cc (fresh i (ground (arith, t)))))
  ]

  -- A car goes on that neither gives a card nor takes one back.
  goes_on-MoneyInv :
      (i low high' serving : ℕ) (owner : Option ℕ) (pc : CarPc)
      → i < high'
      → s.que_high ≤ high'
      → high' ≤ n
      → has_given (s.cars i) ≡ has_given pc
      → has_left (s.cars i) ≡ has_left pc
      → MoneyInv n (
          move_car i pc
            (record s { que_low = low; que_high = high'; serving = serving; pumping = owner }))
  unfolding givers leavers
  goes_on-MoneyInv i low high' serving owner pc lt ge le gives leaves = record {
    length = length;
    high = le;
    fresh = λ j k. ground (arith, fresh j);
    one_giver = rw (how_many-put_same has_given n s.cars i pc gives) one_giver;
    states = states;
    paid = rw (how_many-put_same has_left n s.cars i pc leaves) paid;
  }

  enter_station-MoneyInv : MoneyInv n (enter_station s)
  unfolding enter_station has_given has_left
  enter_station-MoneyInv =
      elim (Bool-cases (
        ltb s.que_high s.car_length
        && ltb (s.que_high - s.que_low) 4
        && leb s.que_low s.que_high)) [
          | inl t ↦ rw t (
              goes_on-MoneyInv s.que_high s.que_low (suc s.que_high) s.serving s.pumping in_line
                (omega arith) (omega arith) (ground (arith, length, t))
                (rw (fresh s.que_high (omega arith)) refl)
                (rw (fresh s.que_high (omega arith)) refl))
          | inr t ↦ rw t inv
        ]

  wait_in_line-MoneyInv : (i : ℕ) → s.cars i ≡ in_line → MoneyInv n (wait_in_line i s)
  unfolding wait_in_line has_given has_left
  wait_in_line-MoneyInv i h = elim (==-cases i s.que_low) [
    | inl (t, e) ↦ rw t (
        goes_on-MoneyInv i s.que_low s.que_high s.serving s.pumping at_pump
          (present i in_line h (λ e. cc)) (omega arith) high (rw h refl) (rw h refl))
    | inr (t, e) ↦ rw t inv
  ]

  go_to_pump-MoneyInv : (i : ℕ) → s.cars i ≡ at_pump → MoneyInv n (go_to_pump i s)
  unfolding go_to_pump has_given has_left
  go_to_pump-MoneyInv i h = elim (==-cases s.serving 3) [
    | inl (t, e) ↦ rw t inv
    | inr (t, e) ↦ rw t (
        goes_on-MoneyInv i s.que_low s.que_high s.serving (some i) (counting s.serving)
          (present i at_pump h (λ e. cc)) (omega arith) high (rw h refl) (rw h refl))
  ]

  leave_line-MoneyInv : (i seen : ℕ) → s.cars i ≡ counting seen → MoneyInv n (leave_line i seen s)
  unfolding leave_line has_given has_left
  leave_line-MoneyInv i seen h =
      goes_on-MoneyInv i (suc s.que_low) s.que_high (suc seen) none at_atm
        (present i (counting seen) h (λ e. cc)) (omega arith) high (rw h refl) (rw h refl)

  give_card-MoneyInv : (i : ℕ) → s.cars i ≡ at_atm → MoneyInv n (give_card i s)
  unfolding give_card has_given has_left givers leavers
  give_card-MoneyInv i h =
      let lt : i < s.que_high = present i at_atm h (λ e. cc) in
      let gives = how_many-put has_given n s.cars i card_given (omega (arith, high)) in
      let leaves = how_many-put_same has_left n s.cars i card_given (rw h refl) in
      elim (==-cases s.atm_busy 0) [
        | inl (t, e) ↦ rw t (record {
          length = length;
          high = high;
          fresh = λ j k. ground (arith, fresh j);
          one_giver = ground (arith, one_giver, gives, h, e);
          states = omega arith;
          paid = ground (arith, paid, leaves, e);
        })
        | inr (t, e) ↦ rw t inv
      ]

  take_card-MoneyInv : (i : ℕ) → s.cars i ≡ card_given → MoneyInv n (take_card i s)
  unfolding take_card has_given has_left givers leavers
  take_card-MoneyInv i h =
      let lt : i < s.que_high = present i card_given h (λ e. cc) in
      let gives = how_many-put has_given n s.cars i left (omega (arith, high)) in
      let leaves = how_many-put has_left n s.cars i left (omega (arith, high)) in
      elim (==-cases s.atm_busy 2) [
        | inl (t, e) ↦ rw t (record {
          length = length;
          high = high;
          fresh = λ j k. ground (arith, fresh j);
          one_giver = ground (arith, one_giver, gives, h, e);
          states = omega arith;
          paid = ground (arith, paid, leaves, h, e);
        })
        | inr (t, e) ↦ rw t inv
      ]

  at_mutex-MoneyInv : (m : Option ℕ) (t : Station) → MoneyInv n t → MoneyInv n (at_mutex m t s)
  unfolding at_mutex
  at_mutex-MoneyInv none t h = h
  at_mutex-MoneyInv (some owner) t h = inv

  car_at-MoneyInv : (pc : CarPc) (i : ℕ) → s.cars i ≡ pc → MoneyInv n (car_at pc i s)
  unfolding car_at
  car_at-MoneyInv absent i h = inv
  car_at-MoneyInv in_line i h =
      at_mutex-MoneyInv s.pumping (wait_in_line i s) (wait_in_line-MoneyInv i h)
  car_at-MoneyInv at_pump i h =
      at_mutex-MoneyInv s.pumping (go_to_pump i s) (go_to_pump-MoneyInv i h)
  car_at-MoneyInv (counting seen) i h = leave_line-MoneyInv i seen h
  car_at-MoneyInv at_atm i h = give_card-MoneyInv i h
  car_at-MoneyInv card_given i h = take_card-MoneyInv i h
  car_at-MoneyInv left i h = inv

  -- An attender that takes no payment.
  attends-MoneyInv :
      (a serving : ℕ) (owner : Option ℕ) (pc : AttenderPc)
      → MoneyInv n (move_attender a pc (record s { serving = serving; serving_car = owner }))
  unfolding givers leavers
  attends-MoneyInv a serving owner pc = record {
    length = length;
    high = high;
    fresh = fresh;
    one_giver = one_giver;
    states = states;
    paid = paid;
  }

  serve_car-MoneyInv : (a : ℕ) → MoneyInv n (serve_car a s)
  unfolding serve_car
  serve_car-MoneyInv a = elim (Bool-cases (ltb 0 s.serving)) [
    | inl t ↦ rw t (attends-MoneyInv a s.serving (some a) (taking s.serving))
    | inr t ↦ rw t (attends-MoneyInv a s.serving s.serving_car accept)
  ]

  accept_payment-MoneyInv : (a : ℕ) → MoneyInv n (accept_payment a s)
  unfolding accept_payment givers leavers
  accept_payment-MoneyInv a = elim (==-cases s.atm_busy 1) [
    | inl (t, e) ↦ rw t (record {
      length = length;
      high = high;
      fresh = fresh;
      one_giver = ground (arith, one_giver, e);
      states = omega arith;
      paid = ground (arith, paid, e);
    })
    | inr (t, e) ↦ rw t inv
  ]

  attender_at-MoneyInv : (pc : AttenderPc) (a : ℕ) → MoneyInv n (attender_at pc a s)
  unfolding attender_at served
  attender_at-MoneyInv serve a =
      at_mutex-MoneyInv s.serving_car (serve_car a s) (serve_car-MoneyInv a)
  attender_at-MoneyInv (taking seen) a = attends-MoneyInv a (seen - 1) none accept
  attender_at-MoneyInv accept a = accept_payment-MoneyInv a

  pub turn-MoneyInv : (t : Thread) → MoneyInv n (turn t s)
  unfolding turn
  turn-MoneyInv entrance = enter_station-MoneyInv
  turn-MoneyInv (car i) = car_at-MoneyInv (s.cars i) i refl
  turn-MoneyInv (attender a) = elim (Bool-cases (ltb a 3)) [
    | inl t ↦ rw t (attender_at-MoneyInv (s.attenders a) a)
    | inr t ↦ rw t inv
  ]

run-MoneyInv : {n : ℕ} (ts : List Thread) (s : Station) → MoneyInv n s → MoneyInv n (run ts s)
unfolding run
run-MoneyInv [] s inv = inv
run-MoneyInv (t ∷ ts) s inv = run-MoneyInv ts (turn t s) (turn-MoneyInv inv t)

pub station_new-MoneyInv : (cars : ℕ) → MoneyInv cars (station_new cars)
unfolding station_new givers leavers has_given has_left
station_new-MoneyInv cars =
    let gives : how_many has_given cars (λ i. absent) ≡ 0 =
      how_many-zero has_given cars (λ i. absent) (λ i. refl) in
    let leaves : how_many has_left cars (λ i. absent) ≡ 0 =
      how_many-zero has_left cars (λ i. absent) (λ i. refl) in
    record {
      length = refl;
      high = omega arith;
      fresh = λ i h. refl;
      one_giver = rw gives refl;
      states = omega arith;
      paid = rw leaves refl;
    }

-- Under every schedule at most one car has given its card and waits, and one has exactly if `ATMBUSY`
-- is not 0, which is 2 at most. The machine holds 100 for each car that has left the station, and
-- another 100 exactly if `ATMBUSY` is 2.
pub money_counts :
    (cars : ℕ) (ts : List Thread)
    → let s = run ts (station_new cars) in
      (givers cars s + tally (s.atm_busy == 0) ≡ 1)
      × (s.atm_busy ≤ 2)
      × (s.atm ≡ 100 * (leavers cars s + tally (s.atm_busy == 2)))
money_counts cars ts =
    let inv = run-MoneyInv ts (station_new cars) (station_new-MoneyInv cars) in
    (inv.one_giver, inv.states, inv.paid)
