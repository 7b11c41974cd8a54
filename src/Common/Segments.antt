-- ===== src/Common/Segments.antt =====
-- A stretch of an array: the cells from one index on, as a list.
use Prim.Native.Nat.{ℕ, zero, suc, ◌+◌, ◌≤◌, ◌<◌}
use mathlib.Core.Path.{◌≡◌, refl, ap}
use mathlib.Core.List.{List, [], ◌∷◌, ◌++◌}
use native.Mathlib.Omega.{arith}
use osassignments.Common.Family.{put}

module _ {ℓ} {A : Type ℓ} where
  -- The `n` cells of `f` from index `lo` on.
  unfoldable pub seg : (ℕ → A) → ℕ → ℕ → List A
  seg f lo zero = []
  seg f lo (suc n) = f lo ∷ seg f (suc lo) n

  pub seg_congr :
      (f g : ℕ → A) (lo n : ℕ)
      → ((k : ℕ) → lo ≤ k → k < lo + n → f k ≡ g k)
      → seg f lo n ≡ seg g lo n
  unfolding seg
  seg_congr f g lo zero h = refl
  seg_congr f g lo (suc n) h = cc (
    h lo (omega arith) (omega arith),
    seg_congr f g (suc lo) n (λ k a b. h k (omega arith) (omega arith)),
  )

  -- A write outside the stretch leaves it alone.
  pub seg-put_below : (f : ℕ → A) (lo n k : ℕ) (v : A) → k < lo → seg (put f k v) lo n ≡ seg f lo n
  unfolding seg
  seg-put_below f lo zero k v h = refl
  seg-put_below f lo (suc n) k v h = ground (arith, seg-put_below f (suc lo) n k v)

  pub seg-put_above :
      (f : ℕ → A) (lo n k : ℕ) (v : A) → lo + n ≤ k → seg (put f k v) lo n ≡ seg f lo n
  unfolding seg
  seg-put_above f lo zero k v h = refl
  seg-put_above f lo (suc n) k v h = ground (arith, seg-put_above f (suc lo) n k v)

  pub seg-snoc : (f : ℕ → A) (lo n : ℕ) → seg f lo (suc n) ≡ seg f lo n ++ f (lo + n) ∷ []
  unfolding seg
  seg-snoc f lo zero = let e : lo + 0 ≡ lo = omega arith in rw e refl
  seg-snoc f lo (suc n) =
      let e : suc lo + n ≡ lo + suc n = omega arith in cc (seg-snoc f (suc lo) n, ap f e)

  pub seg-append : (f : ℕ → A) (lo m n : ℕ) → seg f lo (m + n) ≡ seg f lo m ++ seg f (lo + m) n
  unfolding seg
  seg-append f lo zero n =
      let e : lo + 0 ≡ lo = omega arith in let e' : 0 + n ≡ n = omega arith in rw (e, e') refl
  seg-append f lo (suc m) n =
      let e : suc lo + m ≡ lo + suc m = omega arith in
      let e' : suc m + n ≡ suc (m + n) = omega arith in
      rw e' (cc (seg-append f (suc lo) m n, ap (λ k. seg f k n) e))

  -- A write just past the end makes the stretch one longer.
  pub seg-put_end :
      (f : ℕ → A) (lo n : ℕ) (v : A) → seg (put f (lo + n) v) lo (suc n) ≡ seg f lo n ++ v ∷ []
  seg-put_end f lo n v =
      cc (seg-snoc (put f (lo + n) v) lo n, seg-put_above f lo n (lo + n) v (omega arith), here)
    where
      here : put f (lo + n) v (lo + n) ≡ v
      here = ground arith
