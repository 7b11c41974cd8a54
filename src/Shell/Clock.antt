-- ===== src/Shell/Clock.antt =====
-- Assignment3/wonderShell/wonderShell.c: `clkCmd`, which prints the time, once or again and again.
--
-- A time is its number of seconds, which `localtime` and `strftime` make a text of. The rounds of the
-- loop are those up to the one in which the handler `eleminate` has set `loopflg` to 0.
use osassignments.Common.{
  ℕ, zero, suc, ◌+◌, ◌*◌, ◌≤◌, ◌<◌, ◌≡◌, refl, true, Option, none, some, List, [], ◌∷◌, Each,
  Bool-cases, inl, inr, arith, if◌then◌else◌,
}
use osassignments.Common.Int.{ℤ, pos, sub_ℕ, eq_ℤ}
use osassignments.Shell.Text.{Text}
use osassignments.Shell.Number.{strtol}

-- A round reads `timEd`, and behind `puts` the time from which the next lap counts.
pub record Round : Type 0 where
  pub tim_ed : ℕ
  pub again : ℕ

unfoldable pub clock_rounds : ℤ → ℕ → List Round → List ℕ
clock_rounds lap start [] = []
clock_rounds lap start (r ∷ rounds) =
    let shown = r.tim_ed ∷ clock_rounds lap r.again rounds in
    let same = clock_rounds lap start rounds in
    if eq_ℤ (sub_ℕ r.tim_ed start) lap then shown else same

-- The times that are printed, for the words behind the name; `none` for a wrong usage. `start` and
-- `timer` are the two times read at the beginning.
unfoldable pub clk_cmd : ℕ → ℕ → List Round → List Text → Option (List ℕ)
unfolding clock_rounds strtol
clk_cmd start timer rounds [] = some (timer ∷ [])
clk_cmd start timer rounds (opt ∷ []) = none
clk_cmd start timer rounds (opt ∷ lap ∷ words) =
    some (timer ∷ clock_rounds (strtol lap) start rounds)

-- The rounds see every second, and none is over before the time is read again.
abbrev pub IsTicking : ℕ → List Round → Type 0
IsTicking now [] = Unit
IsTicking now (r ∷ rounds) =
    (now ≤ r.tim_ed) × (r.tim_ed ≤ suc now) × (r.again ≡ r.tim_ed) × IsTicking r.tim_ed rounds

unfoldable pub last_seen : ℕ → List Round → ℕ
last_seen now [] = now
last_seen now (r ∷ rounds) = last_seen r.tim_ed rounds

-- The next so many ends of a lap.
unfoldable pub laps : ℕ → ℕ → ℕ → List ℕ
laps lap start zero = []
laps lap start (suc count) = (start + lap) ∷ laps lap (start + lap) count

one_more :
    (start lap count last : ℕ)
    → start + lap + count * lap ≤ last
    → last < start + lap + suc count * lap
    → (start + suc count * lap ≤ last) × (last < start + suc (suc count) * lap)
one_more start lap count last le lt = (omega arith, omega arith)

due_round :
    (start n : ℕ) (r : Round) (rounds : List Round) (times : List ℕ)
    → eq_ℤ (sub_ℕ r.tim_ed start) (pos (suc n)) ≡ true
    → r.tim_ed ≡ start + suc n
    → r.again ≡ r.tim_ed
    → clock_rounds (pos (suc n)) (start + suc n) rounds ≡ times
    → clock_rounds (pos (suc n)) start (r ∷ rounds) ≡ (start + suc n) ∷ times
unfolding clock_rounds
due_round start n r rounds times t due again e = rw (t, again, due, e) refl

clock_rounds_lem :
    (n start now : ℕ) (rounds : List Round)
    → start ≤ now
    → now < start + suc n
    → IsTicking now rounds
    → (count : ℕ) × (clock_rounds (pos (suc n)) start rounds ≡ laps (suc n) start count)
      × (start + count * suc n ≤ last_seen now rounds)
      × (last_seen now rounds < start + suc count * suc n)
unfolding clock_rounds laps last_seen
clock_rounds_lem n start now [] le lt ticks = (0, refl, omega arith, omega arith)
clock_rounds_lem n start now (r ∷ rounds) le lt (after, soon, again, ticks) =
    elim (Bool-cases (eq_ℤ (sub_ℕ r.tim_ed start) (pos (suc n)))) [
      | inl t ↦
          let due : r.tim_ed ≡ start + suc n = ground (arith, t) in
          let (count, e, low, high) =
            clock_rounds_lem n (start + suc n) r.tim_ed rounds (omega (arith, due))
              (omega (arith, due)) ticks in
          (
            suc count,
            due_round start n r rounds (laps (suc n) (start + suc n) count) t due again e,
            (one_more start (suc n) count (last_seen r.tim_ed rounds) low high).0,
            (one_more start (suc n) count (last_seen r.tim_ed rounds) low high).1,
          )
      | inr t ↦
          let (count, e, low, high) =
            clock_rounds_lem n start r.tim_ed rounds (omega arith) (ground (arith, t)) ticks in
          (count, rw (t, e) refl, low, high)
    ]

-- `clock -t` with a lap of at least one second, while the rounds see every second: behind the time
-- at the beginning it prints the end of every lap up to the last second that it sees, each once.
pub clk_cmd_lem :
    (n start timer : ℕ) (rounds : List Round) (opt lap : Text) (words : List Text)
    → strtol lap ≡ pos (suc n)
    → IsTicking start rounds
    → (count : ℕ) × (clk_cmd start timer rounds (opt ∷ lap ∷ words)
        ≡ some (timer ∷ laps (suc n) start count))
      × (start + count * suc n ≤ last_seen start rounds)
      × (last_seen start rounds < start + suc count * suc n)
unfolding clk_cmd
clk_cmd_lem n start timer rounds opt lap words h ticks =
    let (count, e, low, high) =
      clock_rounds_lem n start start rounds (omega arith) (omega arith) ticks in
    (count, rw (h, e) refl, low, high)

clock_rounds-missed :
    (n start : ℕ) (rounds : List Round)
    → Each (λ r. start + n < r.tim_ed) rounds
    → clock_rounds (pos n) start rounds ≡ []
unfolding clock_rounds
clock_rounds-missed n start [] h = refl
clock_rounds-missed n start (r ∷ rounds) h =
    ground (arith, h.0, clock_rounds-missed n start rounds h.1)

-- If the rounds do not see the second in which the first lap ends, `clock -t` prints no time behind
-- the first, however long it runs.
clk_cmd-missed :
    (n start timer : ℕ) (rounds : List Round) (opt lap : Text) (words : List Text)
    → strtol lap ≡ pos n
    → Each (λ r. start + n < r.tim_ed) rounds
    → clk_cmd start timer rounds (opt ∷ lap ∷ words) ≡ some (timer ∷ [])
unfolding clk_cmd
clk_cmd-missed n start timer rounds opt lap words h late =
    rw (h, clock_rounds-missed n start rounds late) refl
