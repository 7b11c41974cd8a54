-- ===== src/Common/Loops.antt =====
-- A C loop as a function: its test and its body, on fuel.
use Prim.Native.Nat.{ℕ, zero, suc, ◌<◌}
use mathlib.Core.Path.{◌≡◌}
use mathlib.Core.Bool.{Bool, true, false}
use mathlib.Core.Logic.{inl, inr}
use native.Mathlib.Omega.{arith}
use osassignments.Common.Tests.{Bool-cases}

module _ {ℓ} {S : Type ℓ} (test : S → Bool) (body : S → S) where
  unfoldable pub while : ℕ → S → S
  while zero s = s
  while (suc n) s = elim (test s) [ false ↦ s | true ↦ while n (body s) ]

  -- A loop whose body keeps `Inv` and lowers `rank` leaves by its test, and `Inv` holds there.
  pub while_leaves {κ} :
      (Inv : S → Type κ) (rank : S → ℕ)
      → ((s : S) → Inv s → test s ≡ true → Inv (body s) × (rank (body s) < rank s))
      → (n : ℕ) (s : S) → Inv s
      → rank s < n
      → Inv (while n s) × (test (while n s) ≡ false)
  unfolding while
  while_leaves Inv rank keeps zero s inv low = absurd (omega arith)
  while_leaves Inv rank keeps (suc n) s inv low = elim (Bool-cases (test s)) [
    | inl more ↦
        let (next, lower) = keeps s inv more in
        rw (more, while) (while_leaves Inv rank keeps n (body s) next (omega arith))
    | inr done ↦ rw (done, while) (inv, done)
  ]
