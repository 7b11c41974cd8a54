-- ===== src/Reversal/Laws.antt =====
-- Assignment1/task1.c: a block is reversed, and turned back when the program is run again.
use osassignments.Common.{
  ℕ, zero, suc, ◌+◌, ◌-◌, ◌/◌, ◌≤◌, ◌<◌, ◌⊎◌, ◌≡◌, ◌≢◌, refl, ap, ◌∙◌, ltb, if◌then◌else◌, arith,
  ==-cases, inl, inr,
}
use osassignments.Reversal.{Buffer, exchange, invert_case, reverse, turn_block}

one_less : (n : ℕ) → suc n - 1 ≡ n
one_less n = omega arith

-- The two cells take each other's values, and no other cell changes.
exchange_ends :
    (a : Buffer) (index size j : ℕ)
    → index ≤ size
    → (j ≡ index → exchange a index size j ≡ a (size - j))
      × (j ≡ size - index → exchange a index size j ≡ a (size - j))
      × (j ≢ index → j ≢ size - index → exchange a index size j ≡ a j)
unfolding exchange
exchange_ends a index size j le =
    let back : size - (size - index) ≡ index = omega arith in
    (λ e. rw e (grind arith), λ e. rw (e, back) (grind arith), λ n m. grind arith)

-- What lies in front of `index` or behind its counterpart is not touched.
reverse-outside :
    (fuel : ℕ) (a : Buffer) (index size j : ℕ)
    → index ≤ size / 2
    → (j < index) ⊎ (size - index < j)
    → reverse fuel a index size j ≡ a j
unfolding reverse
reverse-outside zero a index size j low out = refl
reverse-outside (suc fuel) a index size j low out = elim (==-cases index (size / 2)) [
  | inl (t, e) ↦
      rw t ((exchange_ends a index size j (omega arith)).2 (λ h. omega arith) (λ h. omega arith))
  | inr (t, e) ↦ rw t (
      reverse-outside fuel (exchange a index size) (suc index) size j (omega arith) (omega arith)
      ∙ (exchange_ends a index size j (omega arith)).2 (λ h. omega arith) (λ h. omega arith))
]

reverse-inside :
    (fuel : ℕ) (a : Buffer) (index size j : ℕ)
    → index ≤ size / 2
    → size / 2 < fuel + index
    → index ≤ j
    → j ≤ size - index
    → reverse fuel a index size j ≡ a (size - j)
unfolding reverse
reverse-inside zero a index size j low high from to = absurd (omega arith)
reverse-inside (suc fuel) a index size j low high from to =
    let ends = exchange_ends a index size j (omega arith) in
    let beyond = exchange_ends a index size (size - j) (omega arith) in
    elim (==-cases index (size / 2)) [
      | inl (t, e) ↦ rw t (elim (==-cases j index) [
        | inl (uf, f) ↦ ends.0 (omega arith)
        | inr (uf, f) ↦ ends.1 (omega arith)
      ])
      | inr (t, e) ↦
          let rest = exchange a index size in
          rw t (elim (==-cases j index) [
            | inl (uf, f) ↦
                reverse-outside fuel rest (suc index) size j (omega arith) (omega arith)
                ∙ ends.0 (omega arith)
            | inr (uf, f) ↦ elim (==-cases j (size - index)) [
              | inl (ug, g) ↦
                  reverse-outside fuel rest (suc index) size j (omega arith) (omega arith)
                  ∙ ends.1 (omega arith)
              | inr (ug, g) ↦
                  reverse-inside fuel rest (suc index) size j (omega arith) (omega arith)
                    (omega arith) (omega arith)
                  ∙ beyond.2 (λ h. omega arith) (λ h. omega arith)
            ]
          ])
    ]

pub invert_case-invert_case : (c : ℕ) → invert_case (invert_case c) ≡ c
invert_case-invert_case c = ground arith

-- A block of at least one code is written in reverse order with the case of each letter inverted,
-- and nothing behind the block is touched.
pub turn_block_lem :
    (last : ℕ) (bufr : Buffer) (j : ℕ)
    → (j ≤ last → turn_block (suc last) bufr j ≡ invert_case (bufr (last - j)))
      × (last < j → turn_block (suc last) bufr j ≡ bufr j)
unfolding turn_block
turn_block_lem last bufr j =
    let a : Buffer = λ i. if ltb i (suc last) then invert_case (bufr i) else bufr i in
    (
      λ h. rw (one_less last) (
          reverse-inside (suc (suc last)) a 0 last j (omega arith) (omega arith) (omega arith)
            (omega arith)
          ∙ ground arith),
      λ h.
          rw (one_less last) (
            reverse-outside (suc (suc last)) a 0 last j (omega arith) (omega arith) ∙ ground arith),
    )

≤-cases : (a b : ℕ) → (a ≤ b) ⊎ (b < a)
≤-cases a b = omega arith

-- A block that is turned twice is what it was.
turn_block-turn_block :
    (last : ℕ) (bufr : Buffer) (j : ℕ)
    → turn_block (suc last) (turn_block (suc last) bufr) j ≡ bufr j
turn_block-turn_block last bufr j = elim (≤-cases j last) [
  | inl e ↦
      (turn_block_lem last (turn_block (suc last) bufr) j).0 (omega arith)
      ∙ ap invert_case ((turn_block_lem last bufr (last - j)).0 (omega arith))
      ∙ invert_case-invert_case (bufr (last - (last - j)))
      ∙ ap bufr (omega arith)
  | inr e ↦
      (turn_block_lem last (turn_block (suc last) bufr) j).1 (omega arith)
      ∙ (turn_block_lem last bufr j).1 (omega arith)
]
