-- ===== src/Station/Defs.antt =====
-- Assignment4/q1_temp.c: the threads of `main`, the cars and the attenders, run in any order.
--
-- What a thread does while it holds a mutex is one step, but for `serving`: a car changes it under
-- `mutex` and an attender under `mutexServe`, so reading and writing it are two steps, between which the
-- thread keeps its mutex (`pumping`, `serving_car`). A thread that waits on a condition tests it again
-- at each of its turns, whether or not it was signalled: this has every run of the program and more, so
-- that invariants carry over. A car keeps `mutex` from `waitInLine` to `goToPump`; here others may come
-- between, which adds schedules only. Left out are the pauses and messages, the end of `exitStation`, which
-- changes nothing that is shared, and the waiting of `main` behind its last car.
use osassignments.Common.{
  ℕ, suc, ◌+◌, ◌-◌, ◌&&◌, Option, none, some, List, [], ◌∷◌, ltb, leb, ◌==◌, if◌then◌else◌,
}
use osassignments.Common.Family.{put}

-- Where a car is: not created; in `waitInLine`; at the loop of `goToPump`; behind the reading of
-- `serving` there; at the first loop of `pay`; at the second; gone.
pub data CarPc : Type 0 where
  absent in_line at_pump at_atm card_given left : CarPc
  counting : ℕ → CarPc

-- Where an attender is: at the lock of `serveCar`; behind its reading of `serving`; at the loop of
-- `acceptPayment`.
pub data AttenderPc : Type 0 where
  serve accept : AttenderPc
  taking : ℕ → AttenderPc

pub record Station : Type 0 where
  pub car_length : ℕ
  pub que_low : ℕ
  pub que_high : ℕ
  pub serving : ℕ
  pub atm_busy : ℕ
  pub atm : ℕ
  pub pumping : Option ℕ
  pub serving_car : Option ℕ
  pub cars : ℕ → CarPc
  pub attenders : ℕ → AttenderPc

abbrev pub move_car : ℕ → CarPc → Station → Station
move_car i pc s = record s { cars = put s.cars i pc }

abbrev pub move_attender : ℕ → AttenderPc → Station → Station
move_attender a pc s = record s { attenders = put s.attenders a pc }

-- One round of the loop of `enterStation`, for as long as cars are to come; `carCompleted` is
-- `queHigh`.
unfoldable pub enter_station : Station → Station
enter_station s =
    if ltb s.que_high s.car_length && ltb (s.que_high - s.que_low) 4 && leb s.que_low s.que_high
    then move_car s.que_high in_line (record s { que_high = suc s.que_high })
    else s

unfoldable pub wait_in_line : ℕ → Station → Station
wait_in_line i s = if i == s.que_low then move_car i at_pump s else s

-- `goToPump`, to the reading of `serving` in `serving++`.
unfoldable pub go_to_pump : ℕ → Station → Station
go_to_pump i s =
    if s.serving == 3 then s else move_car i (counting s.serving) (record s { pumping = some i })

-- The writing of `serving`, and `queLow++`.
unfoldable pub leave_line : ℕ → ℕ → Station → Station
leave_line i seen s =
    move_car i at_atm (record s { serving = suc seen; que_low = suc s.que_low; pumping = none })

-- `pay`, to `ATMBUSY = 1`.
unfoldable pub give_card : ℕ → Station → Station
give_card i s = if s.atm_busy == 0 then move_car i card_given (record s { atm_busy = 1 }) else s

-- The second loop of `pay` and its end.
unfoldable pub take_card : ℕ → Station → Station
take_card i s = if s.atm_busy == 2 then move_car i left (record s { atm_busy = 0 }) else s

-- A car that asks for `mutex` while another one holds it waits.
unfoldable pub at_mutex : Option ℕ → Station → Station → Station
at_mutex none t s = t
at_mutex (some owner) t s = s

unfoldable pub car_at : CarPc → ℕ → Station → Station
unfolding wait_in_line go_to_pump leave_line give_card take_card at_mutex
car_at absent i s = s
car_at in_line i s = at_mutex s.pumping (wait_in_line i s) s
car_at at_pump i s = at_mutex s.pumping (go_to_pump i s) s
car_at (counting seen) i s = leave_line i seen s
car_at at_atm i s = give_card i s
car_at card_given i s = take_card i s
car_at left i s = s

-- `serveCar`, to the reading of `serving` in `serving--`.
unfoldable pub serve_car : ℕ → Station → Station
serve_car a s =
    if ltb 0 s.serving
    then move_attender a (taking s.serving) (record s { serving_car = some a })
    else move_attender a accept s

unfoldable pub served : ℕ → ℕ → Station → Station
served a seen s = move_attender a accept (record s { serving = seen - 1; serving_car = none })

-- `acceptPayment` with its amount of 100.
unfoldable pub accept_payment : ℕ → Station → Station
accept_payment a s =
    if s.atm_busy == 1
    then move_attender a serve (record s { atm = s.atm + 100; atm_busy = 2 })
    else s

unfoldable pub attender_at : AttenderPc → ℕ → Station → Station
unfolding serve_car served accept_payment at_mutex
attender_at serve a s = at_mutex s.serving_car (serve_car a s) s
attender_at (taking seen) a s = served a seen s
attender_at accept a s = accept_payment a s

-- The attenders are 0, 1 and 2.
pub data Thread : Type 0 where
  entrance : Thread
  car attender : ℕ → Thread

unfoldable pub turn : Thread → Station → Station
unfolding enter_station car_at attender_at
turn entrance s = enter_station s
turn (car i) s = car_at (s.cars i) i s
turn (attender a) s = if ltb a 3 then attender_at (s.attenders a) a s else s

unfoldable pub run : List Thread → Station → Station
unfolding turn
run [] s = s
run (t ∷ ts) s = run ts (turn t s)

-- What `main` sets up for so many cars.
unfoldable pub station_new : ℕ → Station
station_new cars = record {
  car_length = cars;
  que_low = 0;
  que_high = 0;
  serving = 0;
  atm_busy = 0;
  atm = 0;
  pumping = none;
  serving_car = none;
  cars = λ i. absent;
  attenders = λ a. serve;
}
