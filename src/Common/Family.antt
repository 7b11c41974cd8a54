-- ===== src/Common/Family.antt =====
-- Families indexed by thread or machine number, and how many of the first `n` members pass a test.
use Prim.Native.Nat.{ℕ, zero, suc, ◌+◌, ◌≤◌, ◌<◌}
use mathlib.Core.Path.{◌≡◌, refl}
use mathlib.Core.Bool.{Bool, true, false}
use mathlib.Core.Logic.{inl, inr}
use native.Mathlib.Omega.{arith}
use osassignments.Common.Tests.{◌==◌, if◌then◌else◌, Bool-cases, ==-cases}

-- The family `f` with member `i` replaced.
abbrev pub put {ℓ} : {A : Type ℓ} → (ℕ → A) → ℕ → A → ℕ → A
put f i a j = if i == j then a else f j

-- 1 if the test passes.
abbrev pub tally : Bool → ℕ
tally true = 1
tally false = 0

module _ {ℓ} {A : Type ℓ} (p : A → Bool) where
  -- How many of the members below `n` pass the test `p`.
  pub how_many : ℕ → (ℕ → A) → ℕ
  how_many zero f = 0
  how_many (suc n) f = tally (p (f n)) + how_many n f

  how_many-put_beyond :
      (n : ℕ) (f : ℕ → A) (i : ℕ) (a : A) → n ≤ i → how_many n (put f i a) ≡ how_many n f
  unfolding how_many
  how_many-put_beyond zero f i a h = refl
  how_many-put_beyond (suc n) f i a h = ground (arith, how_many-put_beyond n f i a)

  pub how_many-put :
      (n : ℕ) (f : ℕ → A) (i : ℕ) (a : A)
      → i < n
      → how_many n (put f i a) + tally (p (f i)) ≡ how_many n f + tally (p a)
  unfolding how_many
  how_many-put zero f i a h = absurd (omega arith)
  how_many-put (suc n) f i a h = ground (arith, how_many-put n f i a, how_many-put_beyond n f i a)

  pub how_many-zero : (n : ℕ) (f : ℕ → A) → ((i : ℕ) → p (f i) ≡ false) → how_many n f ≡ 0
  unfolding how_many
  how_many-zero zero f h = refl
  how_many-zero (suc n) f h = ground (arith, h n, how_many-zero n f h)

  -- A member that passes is counted.
  pub how_many-pos : (n : ℕ) (f : ℕ → A) (i : ℕ) → i < n → p (f i) ≡ true → 0 < how_many n f
  unfolding how_many
  how_many-pos zero f i h e = absurd (omega arith)
  how_many-pos (suc n) f i h e = ground (arith, how_many-pos n f i)

  pub how_many-le : (n : ℕ) (f : ℕ → A) → how_many n f ≤ n
  unfolding how_many
  how_many-le zero f = omega arith
  how_many-le (suc n) f = ground (arith, how_many-le n f)

  -- Where the count is positive some member passes.
  pub how_many-find : (n : ℕ) (f : ℕ → A) → 0 < how_many n f → (i : ℕ) × (i < n) × (p (f i) ≡ true)
  unfolding how_many
  how_many-find zero f h = absurd (omega arith)
  how_many-find (suc n) f h = elim (Bool-cases (p (f n))) [
    | inl e ↦ (n, omega arith, e)
    | inr e ↦ let (i, lt, q) = how_many-find n f (ground arith) in (i, omega arith, q)
  ]

  -- A replacement that passes exactly if the old member did changes no count.
  pub how_many-put_same :
      (n : ℕ) (f : ℕ → A) (i : ℕ) (a : A) → p (f i) ≡ p a → how_many n (put f i a) ≡ how_many n f
  unfolding how_many
  how_many-put_same zero f i a h = refl
  how_many-put_same (suc n) f i a h = ground (arith, how_many-put_same n f i a)

  pub how_many-all : (n : ℕ) (f : ℕ → A) → ((i : ℕ) → i < n → p (f i) ≡ true) → how_many n f ≡ n
  unfolding how_many
  how_many-all zero f h = refl
  how_many-all (suc n) f h =
      ground (arith, h n (omega arith), how_many-all n f (λ i l. h i (omega arith)))

module _ {ℓ} {A : Type ℓ} (weight : A → ℕ) where
  -- The weights of the members below `n`.
  pub total : ℕ → (ℕ → A) → ℕ
  total zero f = 0
  total (suc n) f = weight (f n) + total n f

  total-put_beyond : (n : ℕ) (f : ℕ → A) (i : ℕ) (a : A) → n ≤ i → total n (put f i a) ≡ total n f
  unfolding total
  total-put_beyond zero f i a h = refl
  total-put_beyond (suc n) f i a h = ground (arith, total-put_beyond n f i a)

  pub total-put :
      (n : ℕ) (f : ℕ → A) (i : ℕ) (a : A)
      → i < n
      → total n (put f i a) + weight (f i) ≡ total n f + weight a
  unfolding total
  total-put zero f i a h = absurd (omega arith)
  total-put (suc n) f i a h = ground (arith, total-put n f i a, total-put_beyond n f i a)

  -- A total of 0 has no other member.
  pub total-zero : (n : ℕ) (f : ℕ → A) → total n f ≡ 0 → (i : ℕ) → i < n → weight (f i) ≡ 0
  unfolding total
  total-zero zero f h i l = absurd (omega arith)
  total-zero (suc n) f h i l = elim (==-cases i n) [
    | inl (t, e) ↦ rw e (omega (arith, h))
    | inr (t, e) ↦ total-zero n f (omega (arith, h)) i (omega (arith, e))
  ]

  -- Where the total is positive some member has a weight.
  pub total-find : (n : ℕ) (f : ℕ → A) → 0 < total n f → (i : ℕ) × (i < n) × (0 < weight (f i))
  unfolding total
  total-find zero f h = absurd (omega arith)
  total-find (suc n) f h = elim (==-cases (weight (f n)) 0) [
    | inl (t, e) ↦ let (i, lt, q) = total-find n f (omega (arith, h, e)) in (i, omega arith, q)
    | inr (t, e) ↦ (n, omega arith, omega (arith, e))
  ]
