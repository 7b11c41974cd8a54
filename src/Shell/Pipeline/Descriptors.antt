-- ===== src/Shell/Pipeline/Descriptors.antt =====
-- Assignment3/wonderShell/wonderShell.c: the descriptors that a pipeline leaves open in the shell.
use osassignments.Common.{
  ◌||◌, ℕ, zero, suc, ◌+◌, ◌≡◌, Bool-cases, inl, inr, refl, ap, Bool, true, false, List, [], ◌∷◌,
  arith, length, get_elem?, if◌then◌else◌,
}
use osassignments.Common.Int.{ℤ, pos, eq_ℤ, ltb_ℤ}
use osassignments.Shell.Text.{Text}
use osassignments.Shell.Process.{
  Call, M, Os, Outcome, Shell, close, crashed, gone, done, dup, dup2, fork, open_in, open_out,
  open_tty, open_tty_in, pipe, pure, wait, wait_until_ended, waiting, waitpid,
}
use osassignments.Shell.Process.Laws.{IfDone, IfDone-if}
use osassignments.Shell.Dispatch.{Show}
use osassignments.Shell.Pipeline.Laws.{IsParent}

-- The list without the descriptor `d`.
unfoldable pub without : ℤ → List ℤ → List ℤ
without d [] = []
without d (e ∷ fds) = let rest = without d fds in if eq_ℤ d e then rest else e ∷ rest

abbrev pub is_open : ℤ → List ℤ → Bool
is_open d [] = false
is_open d (e ∷ fds) = eq_ℤ d e || is_open d fds

-- With `d` among them if it is above 2: a call that fails gives a number below 0.
unfoldable pub with_opened : ℤ → List ℤ → List ℤ
with_opened d fds = if ltb_ℤ (pos 2) d then d ∷ fds else fds

-- The descriptors above 2 that are open. Each end of a pipe has a call.
unfoldable pub open_fds : Os → List Call → List ℤ
unfolding without with_opened
open_fds os [] = []
open_fds os (pipe ∷ calls) = with_opened (os.reply (pipe ∷ calls)) (open_fds os calls)
open_fds os (open_tty ∷ calls) = with_opened (os.reply (open_tty ∷ calls)) (open_fds os calls)
open_fds os (open_tty_in ∷ calls) = with_opened (os.reply (open_tty_in ∷ calls)) (open_fds os calls)
open_fds os (dup d ∷ calls) = with_opened (os.reply (dup d ∷ calls)) (open_fds os calls)
open_fds os (open_in name ∷ calls) =
    with_opened (os.reply (open_in name ∷ calls)) (open_fds os calls)
open_fds os (open_out append name ∷ calls) =
    with_opened (os.reply (open_out append name ∷ calls)) (open_fds os calls)
open_fds os (dup2 from to ∷ calls) =
    let fds = open_fds os calls in if ltb_ℤ (pos 2) to then to ∷ without to fds else fds
open_fds os (close d ∷ calls) = without d (open_fds os calls)
open_fds os (c ∷ calls) = open_fds os calls

without-absent : (d : ℤ) (fds : List ℤ) → is_open d fds ≡ false → without d fds ≡ fds
unfolding without
without-absent d [] h = refl
without-absent d (e ∷ fds) h = elim (Bool-cases (eq_ℤ d e)) [
  | inl k ↦ absurd (ground (arith, k, h))
  | inr k ↦ rw k (ap (λ l. e ∷ l) (without-absent d fds (ground (arith, k, h))))
]

eq_ℤ-self : (d : ℤ) → eq_ℤ d d ≡ true
eq_ℤ-self d = ground arith

-- Closing what was just opened.
pub without-opened : (d : ℤ) (fds : List ℤ) → is_open d fds ≡ false → without d (d ∷ fds) ≡ fds
unfolding without
without-opened d fds h = rw (eq_ℤ-self d) (without-absent d fds h)

-- In `t` there are `n` descriptors open more than in `s`.
abbrev pub Leaks : Os → ℕ → Shell → {A : Type 0} → A → Shell → Type 0
Leaks os n s a t = length (open_fds os t.calls) ≡ n + length (open_fds os s.calls)

-- The descriptor that the input was moved from last, 0 for the input at the start and for the
-- terminal.
unfoldable pub input_of : List Call → ℤ
input_of [] = pos 0
input_of (open_tty_in ∷ calls) = pos 0
input_of (dup2 from to ∷ calls) = if eq_ℤ to (pos 0) then from else input_of calls
input_of (c ∷ calls) = input_of calls

-- The input is not the one of the start.
abbrev pub InputMoved : {A : Type 0} → A → Shell → Type 0
InputMoved a t = eq_ℤ (input_of t.calls) (pos 0) ≡ false

pub IfDone-and :
    {A : Type 0} (P Q : A → Shell → Type 0) (o : Outcome A)
    → IfDone P o
    → IfDone Q o
    → IfDone (λ a s. P a s × Q a s) o
IfDone-and P Q (done a s) h k = (h, k)
IfDone-and P Q (crashed s) h k = tt
IfDone-and P Q (gone s) h k = tt
IfDone-and P Q (waiting s) h k = tt

module _ (os : Os) where
  -- `pipe` succeeds, and gives each end a number above 2 that is not in use.
  abbrev pub PipesAbove : Type 0
  PipesAbove =
      (calls : List Call)
      → (ltb_ℤ (pos 2) (os.reply (pipe ∷ calls)) ≡ true)
        × (is_open (os.reply (pipe ∷ calls)) (open_fds os calls) ≡ false)

  pub pipe-nonzero :
      (calls : List Call) → PipesAbove → eq_ℤ (os.reply (pipe ∷ calls)) (pos 0) ≡ false
  pipe-nonzero calls above = ground (arith, (above calls).0)

  -- Waiting changes no descriptor.
  pub wait_until_ended-Leaks :
      (rounds : ℕ) (pid : ℤ) (s : Shell) → IfDone (Leaks os 0 s) (wait_until_ended os rounds pid s)
  unfolding wait_until_ended wait open_fds
  wait_until_ended-Leaks zero pid s = tt
  wait_until_ended-Leaks (suc rounds) pid s =
      let after = record s { calls = waitpid pid ∷ s.calls } in
      IfDone-if (Leaks os 0 s) (os.ended after.calls) (pure tt) (wait_until_ended os rounds pid)
        after (omega arith) (wait_until_ended-Leaks rounds pid after)

  pub wait_until_ended-InputMoved :
      (rounds : ℕ) (pid : ℤ) (s : Shell)
      → InputMoved tt s
      → IfDone InputMoved (wait_until_ended os rounds pid s)
  unfolding wait_until_ended wait input_of
  wait_until_ended-InputMoved zero pid s h = tt
  wait_until_ended-InputMoved (suc rounds) pid s h =
      let after = record s { calls = waitpid pid ∷ s.calls } in
      IfDone-if InputMoved (os.ended after.calls) (pure tt) (wait_until_ended os rounds pid) after h
        (wait_until_ended-InputMoved rounds pid after h)

module _ (os : Os) (rounds : ℕ) (home : Text) (shows : Show → ℕ → M Unit) (stray : Text → Bool)
    (parent : IsParent os) where
  -- The state behind the first stage of several.
  abbrev pub behind_stage : List Text → Shell → Shell
  behind_stage cmd s = record s {
    list = get_elem? cmd;
    calls = close (os.reply (pipe ∷ pipe ∷ s.calls)) ∷ fork ∷ pipe ∷ pipe ∷ s.calls;
  }
