-- ===== src/Reversal/Copying/Laws.antt =====
-- Assignment1/task1.c: the file comes out in reverse order, if its size is no multiple of the block's.
use osassignments.Common.{
  ℕ, zero, suc, ◌+◌, ◌-◌, ◌≤◌, ◌<◌, ◌≡◌, ◌⊎◌, refl, sym, ap, ◌∙◌, Option, none, some, List, [], ◌∷◌,
  ◌++◌, arith, inl, inr,
}
use osassignments.Common.Segments.{seg}
use osassignments.Reversal.{invert_case, turn_block}
use osassignments.Reversal.Laws.{turn_block_lem}
use osassignments.Reversal.Copying.{
  Copying, find_offset, set_offset, go_back, read, put_block, finish, full_round, last_round,
}

-- The first `n` codes of a file from the last to the first, with the case of each letter inverted.
unfoldable pub backwards : (ℕ → ℕ) → ℕ → List ℕ
backwards content zero = []
backwards content (suc n) = invert_case (content n) ∷ backwards content n

-- The codes `lo` to `lo + n` of a file in the same way.
unfoldable pub back_block : (ℕ → ℕ) → ℕ → ℕ → List ℕ
back_block content lo zero = []
back_block content lo (suc n) = invert_case (content (lo + n)) ∷ back_block content lo n

zero_right : (n : ℕ) → n + 0 ≡ n
zero_right n = omega arith

suc_out : (m n : ℕ) → m + suc n ≡ suc (m + n)
suc_out m n = omega arith

suc_over : (m n : ℕ) → suc m + n ≡ m + suc n
suc_over m n = omega arith

last_place : (lo n : ℕ) → lo + (suc n - 1 - 0) ≡ lo + n
last_place lo n = omega arith

pub back_block-backwards :
    (content : ℕ → ℕ) (lo n : ℕ)
    → back_block content lo n ++ backwards content lo ≡ backwards content (lo + n)
unfolding back_block backwards
back_block-backwards content lo zero = ap (backwards content) (sym (zero_right lo))
back_block-backwards content lo (suc n) =
    ap (◌∷◌ (invert_case (content (lo + n)))) (back_block-backwards content lo n)
    ∙ ap (backwards content) (sym (suc_out lo n))

-- A stretch that holds a block in reverse order.
seg-back_block :
    (content : ℕ → ℕ) (f : ℕ → ℕ) (lo n at : ℕ)
    → ((j : ℕ) → j < n → f (at + j) ≡ invert_case (content (lo + (n - 1 - j))))
    → seg f at n ≡ back_block content lo n
unfolding seg back_block
seg-back_block content f lo zero at h = refl
seg-back_block content f lo (suc n) at h = cc (
  h 0 (omega arith),
  ap f (zero_right at),
  ap content (last_place lo n),
  seg-back_block content f lo n (suc at) (λ j lt.
      ap f (suc_over at j)
      ∙ h (suc j) (omega arith)
      ∙ ap (λ k. invert_case (content (lo + k))) (omega arith)),
)

find_offset-found : (i pos : ℕ) → 0 < pos → pos ≤ i → find_offset i pos ≡ some pos
unfolding find_offset
find_offset-found zero pos lt le = absurd (omega arith)
find_offset-found (suc i) pos lt le = ground (arith, find_offset-found i pos)

find_offset-none : (i : ℕ) → find_offset i 0 ≡ none
unfolding find_offset
find_offset-none zero = refl
find_offset-none (suc i) = ground (arith, find_offset-none i)

module _ (length : ℕ) (content : ℕ → ℕ) where
  read_lem :
      (s : Copying)
      → s.pos + s.bufr_size ≤ length
      → ((read length content s).b ≡ s.bufr_size)
        × ((read length content s).pos ≡ s.pos + s.bufr_size)
        × ((j : ℕ) → j < s.bufr_size → (read length content s).bufr j ≡ content (s.pos + j))
        × ((read length content s).bufr_size ≡ s.bufr_size)
        × ((read length content s).out ≡ s.out)
  unfolding read
  read_lem s le = (ground arith, ground arith, λ j lt. ground arith, refl, refl)

  put_block_lem :
      (s : Copying) (last lo : ℕ)
      → s.b ≡ suc last
      → ((j : ℕ) → j < suc last → s.bufr j ≡ content (lo + j))
      → (put_block length content s).out ≡ s.out ++ back_block content lo (suc last)
  unfolding put_block
  put_block_lem s last lo e h = rw e (
      ap (◌++◌ s.out) (
        seg-back_block content (turn_block (suc last) s.bufr) lo (suc last) 0 (λ j lt.
          ap (turn_block (suc last) s.bufr) (omega arith)
          ∙ (turn_block_lem last s.bufr j).0 (omega arith)
          ∙ ap invert_case (h (last - j) (omega arith) ∙ ap content (omega arith)))))

  -- A full round writes the block in front of the one before.
  pub full_round_lem :
      (s : Copying) (last x : ℕ)
      → s.bufr_size ≡ suc last
      → s.pos ≡ x + suc last + s.b
      → s.pos ≤ length
      → let t = full_round length content s in
        (t.pos ≡ x + suc last)
        × (t.b ≡ suc last)
        × (t.bufr_size ≡ suc last)
        × (t.out ≡ s.out ++ back_block content x (suc last))
  unfolding full_round put_block
  full_round_lem s last x size place le =
      let back : Copying = record s { pos = s.pos - (s.bufr_size + s.b) } in
      let (count, there, codes, same, kept) = read_lem back (omega arith) in
      (
        there ∙ omega arith,
        count ∙ size,
        same ∙ size,
        put_block_lem (read length content back) last x (count ∙ size)
              (λ j lt. codes j (omega arith) ∙ ap content (omega arith))
            ∙ ap (λ o. o ++ back_block content x (suc last)) kept,
      )

  finish_lem :
      (s : Copying) (last lo : ℕ)
      → s.bufr_size ≡ suc last
      → s.pos ≡ lo
      → lo + suc last ≤ length
      → (finish length content s).out ≡ s.out ++ back_block content lo (suc last)
  unfolding finish
  finish_lem s last lo size place le =
      let (count, there, codes, same, kept) = read_lem s (omega arith) in
      let all : Copying = record (read length content s) {
        b = (read length content s).bufr_size;
      } in
      put_block_lem all last lo (same ∙ size)
        (λ j lt. codes j (omega arith) ∙ ap (λ p. content (p + j)) place)
      ∙ ap (λ o. o ++ back_block content lo (suc last)) kept

  go_back_lem :
      (k : ℕ) (s : Copying)
      → ((go_back k s).out ≡ s.out)
        × ((go_back k s).bufr_size ≡ s.bufr_size)
        × (k ≤ s.pos → (go_back k s).pos ≡ s.pos - k)
        × (s.pos < k → (go_back k s).pos ≡ s.pos)
  go_back_lem k s = (ground arith, ground arith, λ h. ground arith, λ h. ground arith)

  finish-found :
      (o : Option ℕ) (s : Copying) (last : ℕ)
      → o ≡ some (suc last)
      → s.pos ≡ suc last
      → suc last ≤ length
      → (finish length content (set_offset o s)).out ≡ s.out ++ back_block content 0 (suc last)
  unfolding set_offset
  finish-found none s last e place le = cc
  finish-found (some i) s last e place le =
      let same : i ≡ suc last = cc in
      finish_lem (record s { pos = s.pos - i; bufr_size = i }) last 0 same (omega arith)
        (omega arith)

  finish-none :
      (o : Option ℕ) (s : Copying) (last : ℕ)
      → o ≡ none
      → s.bufr_size ≡ suc last
      → s.pos ≡ 0
      → suc last ≤ length
      → (finish length content (set_offset o s)).out ≡ s.out ++ back_block content 0 (suc last)
  unfolding set_offset
  finish-none none s last e size place le = finish_lem s last 0 size place (omega arith)
  finish-none (some i) s last e size place le = cc

  -- The last round, where fewer codes than a block are left and some are: it writes them.
  pub last_round_lem :
      (s : Copying) (last x : ℕ)
      → s.bufr_size ≡ suc last
      → suc x ≤ last
      → s.pos ≡ suc x + s.b
      → (s.b ≡ 0) ⊎ (s.b ≡ suc last)
      → s.pos ≤ length
      → (last_round length content s).out ≡ s.out ++ back_block content 0 (suc x)
  unfolding last_round
  last_round_lem s last x size few place first le =
      let back : Copying = go_back s.bufr_size s in
      let (kept, same, far, near) = go_back_lem s.bufr_size s in
      let at_rest : back.pos ≡ suc x = elim first [
        | inl e ↦ near (omega arith) ∙ omega arith
        | inr e ↦ far (omega arith) ∙ omega arith
      ] in
      finish-found (find_offset (s.bufr_size - 1) back.pos) back x
        (ap (find_offset (s.bufr_size - 1)) at_rest
          ∙ find_offset-found (s.bufr_size - 1) (suc x) (omega arith) (omega arith))
        at_rest (omega arith)
      ∙ ap (λ o. o ++ back_block content 0 (suc x)) kept

  -- The last round where nothing is left behind full blocks: it goes back one block too far.
  pub last_round-again :
      (s : Copying) (last : ℕ)
      → s.bufr_size ≡ suc last
      → s.pos ≡ suc last
      → s.pos ≤ length
      → (last_round length content s).out ≡ s.out ++ back_block content 0 (suc last)
  unfolding last_round
  last_round-again s last size place le =
      let back : Copying = go_back s.bufr_size s in
      let (kept, same, far, near) = go_back_lem s.bufr_size s in
      let at_start : back.pos ≡ 0 = far (omega arith) ∙ omega arith in
      finish-none (find_offset (s.bufr_size - 1) back.pos) back last
        (ap (find_offset (s.bufr_size - 1)) at_start ∙ find_offset-none (s.bufr_size - 1))
        (same ∙ size) at_start (omega arith)
      ∙ ap (λ o. o ++ back_block content 0 (suc last)) kept
