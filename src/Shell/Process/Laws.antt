-- ===== src/Shell/Process/Laws.antt =====
-- Assignment3/wonderShell/wonderShell.c: what is left when an action returns to the shell.
use osassignments.Common.{
  ℕ, zero, suc, ◌<◌, ◌≡◌, refl, Bool, true, false, none, some, List, ◌∷◌, if◌then◌else◌, arith,
}
use osassignments.Common.Int.{ℤ}
use osassignments.Shell.Text.{Text, same_text}
use osassignments.Shell.Process.{
  Call, M, Os, Outcome, Shell, arg_is, crashed, done, follow, gone, wait, wait_until_ended, waiting,
  waitpid,
}

-- If the action returns, its result and the state satisfy `Q`.
abbrev pub IfDone : {A : Type 0} → (A → Shell → Type 0) → Outcome A → Type 0
IfDone Q (done a s) = Q a s
IfDone Q (crashed s) = Unit
IfDone Q (gone s) = Unit
IfDone Q (waiting s) = Unit

pub IfDone-follow :
    {A B : Type 0} (P : A → Shell → Type 0) (Q : B → Shell → Type 0) (o : Outcome A) (f : A → M B)
    → IfDone P o
    → ((a : A) (s : Shell) → P a s → IfDone Q (f a s))
    → IfDone Q (follow o f)
IfDone-follow P Q (done a s) f h k = k a s h
IfDone-follow P Q (crashed s) f h k = tt
IfDone-follow P Q (gone s) f h k = tt
IfDone-follow P Q (waiting s) f h k = tt

pub IfDone-mono :
    {A : Type 0} (P Q : A → Shell → Type 0) (o : Outcome A)
    → ((a : A) (s : Shell) → P a s → Q a s)
    → IfDone P o
    → IfDone Q o
IfDone-mono P Q (done a s) k h = k a s h
IfDone-mono P Q (crashed s) k h = tt
IfDone-mono P Q (gone s) k h = tt
IfDone-mono P Q (waiting s) k h = tt

pub IfDone-if :
    {A : Type 0} (Q : A → Shell → Type 0) (b : Bool) (m k : M A) (s : Shell)
    → IfDone Q (m s)
    → IfDone Q (k s)
    → IfDone Q ((if b then m else k) s)
IfDone-if Q true m k s h g = h
IfDone-if Q false m k s h g = g

pub arg_is-none : (i : ℕ) (word : Text) (s : Shell) → s.list i ≡ none → arg_is i word s ≡ crashed s
unfolding arg_is
arg_is-none i word s e = rw (arg_is, e) refl

pub arg_is-some :
    (i : ℕ) (w word : Text) (s : Shell)
    → s.list i ≡ some w
    → arg_is i word s ≡ done (same_text w word) s
unfolding arg_is
arg_is-some i w word s e = rw (arg_is, e) refl

module _ (os : Os) where
  -- The history after `n` more waits for `pid`.
  unfoldable pub waits : ℕ → ℤ → List Call → List Call
  waits zero pid calls = calls
  waits (suc n) pid calls = waits n pid (waitpid pid ∷ calls)

  -- If the child has ended by the wait `k`, and not before it, the shell waits exactly that often
  -- and goes on with nothing else changed, for every number of rounds that is greater.
  pub wait_until_ended_lem :
      (k rounds : ℕ) (pid : ℤ) (s : Shell)
      → k < rounds
      → ((i : ℕ) → i < k → os.ended (waits (suc i) pid s.calls) ≡ false)
      → os.ended (waits (suc k) pid s.calls) ≡ true
      → wait_until_ended os rounds pid s ≡ done tt (record s { calls = waits (suc k) pid s.calls })
  unfolding wait_until_ended wait waits
  wait_until_ended_lem k zero pid s lt early late = absurd (omega arith)
  wait_until_ended_lem zero (suc rounds) pid s lt early late = rw late refl
  wait_until_ended_lem (suc k) (suc rounds) pid s lt early late = rw (early 0 (omega arith)) (
      wait_until_ended_lem k rounds pid (record s { calls = waitpid pid ∷ s.calls }) (omega arith)
        (λ i h. early (suc i) (omega arith)) late)
