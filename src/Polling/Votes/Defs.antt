-- ===== src/Polling/Votes/Defs.antt =====
-- Assignment4/q2.c: the invariant about the voters that robots hold and the votes still to cast.
use osassignments.Common.{ℕ, ◌≡◌, ◌≢◌, Bool, true, false, if◌then◌else◌, arith, refl}
use osassignments.Common.Int.{ℤ, pos, negsuc, ◌+ℤ◌, ◌<ℤ◌, ◌≤ℤ◌, ltb_ℤ}
use osassignments.Common.Family.{how_many, how_many-zero}
use osassignments.Polling.Booth.{Robot, in_slot, wait_evm, Booth, booth_new}

-- The robot has a voter who has not voted.
abbrev pub is_voting : Robot → Bool
is_voting r = elim r.pc [ wait_evm ↦ true | in_slot ↦ true | _ ↦ false ]

abbrev pub voting : ℕ → Booth → ℕ
voting robots s = how_many is_voting robots s.robots

-- What the counter of voters says of the votes: below 0 it only says that it passed 0.
abbrev pub votes_left : ℤ → ℤ
votes_left u = if ltb_ℤ u (pos 0) then negsuc 0 else u

pub record VotesInv (robots voters : ℕ) (s : Booth) : Type 0 where
  pub counted :
      s.n_votes_to_cast ≡ votes_left s.number_of_unassigned_voters +ℤ pos (voting robots s)
  pub unassigned-le : s.number_of_unassigned_voters ≤ℤ pos voters
  pub issued :
      (i : ℕ)
      → is_voting (s.robots i) ≡ true
      → (s.number_of_unassigned_voters <ℤ (s.robots i).voter_id)
        × (pos 0 ≤ℤ (s.robots i).voter_id)
        × ((s.robots i).voter_id ≤ℤ pos voters)
  pub distinct :
      (i j : ℕ)
      → i ≢ j
      → is_voting (s.robots i) ≡ true
      → is_voting (s.robots j) ≡ true
      → (s.robots i).voter_id ≢ (s.robots j).voter_id

pub booth_new-VotesInv :
    (evms robots voters slots : ℕ) → VotesInv robots voters (booth_new evms robots voters slots)
unfolding booth_new ◌+ℤ◌
booth_new-VotesInv evms robots voters slots = record {
  counted = ground (arith, nobody);
  unassigned-le = ground arith;
  issued = λ i h. ground arith;
  distinct = λ i j ne h. ground arith;
}
  where
    nobody : voting robots (booth_new evms robots voters slots) ≡ 0
    nobody = how_many-zero is_voting robots _ (λ i. refl)
