-- ===== src/Kernel/Table.antt =====
-- Assignment5/xv6-public/sysproc.c: `sys_getptable`, which copies the table of processes to a buffer
-- of the user, and `sys_chpr`.
--
-- What argint and argptr say of the arguments, the table and `chpr` come from other files of the
-- kernel and are parameters.
use osassignments.Common.{
  ℕ, zero, suc, ◌+◌, ◌-◌, ◌*◌, ◌≤◌, ◌<◌, ◌≡◌, ◌≢◌, refl, sym, ap, ◌∙◌, ◌⊎◌, inl, inr, Bool, true,
  false, ◌&&◌, not, Option, none, some, List, [], ◌∷◌, Bool-cases, ltb, ◌==◌, if◌then◌else◌, arith,
}
use osassignments.Common.Int.{ℤ, pos, negsuc, pos_part}

-- What is read of a process; state 0 is UNUSED. `parent_pid` is what lies where `p->parent->pid` is
-- looked for, also where `p->parent` is null.
pub record Proc : Type 0 where
  pub state : ℕ
  pub pid : ℤ
  pub parent_pid : ℤ
  pub name : List ℕ
  pub priority : ℤ

-- The 32 bytes written from an offset on.
pub record Entry : Type 0 where
  pub offset : ℕ
  pub state : ℕ
  pub pid : ℤ
  pub parent_pid : ℤ
  pub name : List ℕ
  pub priority : ℤ

unfoldable pub entry_of : ℕ → Proc → Entry
entry_of s p = record {
  offset = s;
  state = p.state;
  pid = p.pid;
  parent_pid = p.parent_pid;
  name = p.name;
  priority = p.priority;
}

-- The loop, at an offset and a place in the table.
unfoldable pub copy_table : (ℕ → Proc) → ℕ → ℕ → ℕ → ℕ → List Entry
unfolding entry_of
copy_table table size zero s p = []
copy_table table size (suc fuel) s p =
    let rest = copy_table table size fuel (s + 32) (suc p) in
    if ltb s size && not ((table p).state == 0) then entry_of s (table p) ∷ rest else []

-- The result and what is written, for the size, `none` where argint fails, and the answer of argptr.
-- A negative size is below every offset.
unfoldable pub sys_getptable : (ℕ → Proc) → Option ℤ → Bool → ℤ × List Entry
unfolding copy_table
sys_getptable table none checked = (negsuc 0, [])
sys_getptable table (some size) false = (negsuc 0, [])
sys_getptable table (some size) true = (pos 0, copy_table table (pos_part size) (pos_part size) 0 0)

unfoldable pub sys_chpr : (ℤ → ℤ → ℤ) → Option ℤ → Option ℤ → ℤ
sys_chpr chpr (some pid) (some pr) = chpr pid pr
sys_chpr chpr _ _ = negsuc 0

-- The entries of so many processes.
unfoldable pub entries : (ℕ → Proc) → ℕ → ℕ → ℕ → List Entry
unfolding entry_of
entries table zero s p = []
entries table (suc count) s p = entry_of s (table p) ∷ entries table count (s + 32) (suc p)

-- So many processes, up to one that is unused or to the end of the buffer.
pub record IsCount (table : ℕ → Proc) (size s p count : ℕ) : Type 0 where
  pub used : (i : ℕ) → i < count → (table (p + i)).state ≢ 0
  pub starts_inside : (i : ℕ) → i < count → s + 32 * i < size
  pub over : (size ≤ s + 32 * count) ⊎ ((table (p + count)).state ≡ 0)

past_first : (p i : ℕ) → suc p + i ≡ p + suc i
past_first p i = omega arith

at_first : (p : ℕ) → p + 0 ≡ p
at_first p = omega arith

from_zero : (n : ℕ) → 0 + n ≡ n
from_zero n = omega arith

used_more :
    (table : ℕ → Proc) (p count : ℕ)
    → (table p).state ≢ 0
    → ((i : ℕ) → i < count → (table (suc p + i)).state ≢ 0)
    → (i : ℕ) → i < suc count
    → (table (p + i)).state ≢ 0
used_more table p count first others zero l = rw (at_first p) first
used_more table p count first others (suc i) l = rw (sym (past_first p i)) (others i (omega arith))

more-IsCount :
    (table : ℕ → Proc) (size s p count : ℕ)
    → s < size
    → (table p).state ≢ 0
    → IsCount table size (s + 32) (suc p) count
    → IsCount table size s p (suc count)
more-IsCount table size s p count inside first c = record {
  used = used_more table p count first c.used;
  starts_inside = λ i l. elim (Bool-cases (i == 0)) [
    | inl t ↦ ground (arith, t)
    | inr t ↦
        let earlier = c.starts_inside (i - 1) (ground (arith, t)) in ground (arith, t, earlier)
  ];
  over = elim c.over [ inl e ↦ inl (omega arith) | inr e ↦ inr (rw (sym (past_first p count)) e) ];
}

none-IsCount :
    (table : ℕ → Proc) (size s p : ℕ)
    → (size ≤ s) ⊎ ((table p).state ≡ 0)
    → IsCount table size s p 0
none-IsCount table size s p over = record {
  used = λ i l. absurd (omega arith);
  starts_inside = λ i l. absurd (omega arith);
  over = elim over [ inl e ↦ inl (omega arith) | inr e ↦ inr (rw (at_first p) e) ];
}

copy_table_lem :
    (table : ℕ → Proc) (size fuel s p : ℕ)
    → size ≤ s + fuel
    → (count : ℕ) × (copy_table table size fuel s p ≡ entries table count s p)
      × IsCount table size s p count
unfolding copy_table entries
copy_table_lem table size zero s p h = (0, refl, none-IsCount table size s p (inl (omega arith)))
copy_table_lem table size (suc fuel) s p h =
    elim (Bool-cases (ltb s size && not ((table p).state == 0))) [
      | inl t ↦
          let (count, e, c) = copy_table_lem table size fuel (s + 32) (suc p) (omega arith) in
          (
            suc count,
            rw (t, e) refl,
            more-IsCount table size s p count (ground (arith, t)) (ground (arith, t)) c,
          )
      | inr t ↦ (0, rw t refl, none-IsCount table size s p (ground (arith, t)))
    ]

-- For every size and table, the processes in front of the first unused one are written in their
-- order, 32 bytes each, as long as an entry begins inside the buffer.
pub sys_getptable_lem :
    (table : ℕ → Proc) (size : ℤ)
    → (count : ℕ) × (sys_getptable table (some size) true ≡ (pos 0, entries table count 0 0))
      × IsCount table (pos_part size) 0 0 count
unfolding sys_getptable
sys_getptable_lem table size =
    let (count, e, c) = copy_table_lem table (pos_part size) (pos_part size) 0 0 (omega arith) in
    (count, rw e refl, c)

-- The first byte behind what is written.
unfoldable pub end_of : ℕ → List Entry → ℕ
end_of s [] = s
end_of s (e ∷ es) = end_of (e.offset + 32) es

end_of-entries :
    (table : ℕ → Proc) (count s p : ℕ) → end_of s (entries table count s p) ≡ s + 32 * count
unfolding end_of entries entry_of
end_of-entries table zero s p = omega arith
end_of-entries table (suc count) s p = omega (arith, end_of-entries table count (s + 32) (suc p))

count_lem :
    (table : ℕ → Proc) (k rest count : ℕ)
    → 0 < rest
    → rest < 32
    → ((i : ℕ) → i ≤ k → (table i).state ≢ 0)
    → IsCount table (32 * k + rest) 0 0 count
    → count ≡ suc k
count_lem table k rest count some_left less used c =
    let enough : k < count = elim (Bool-cases (ltb k count)) [
      | inl t ↦ ground (arith, t)
      | inr t ↦ elim c.over [
        | inl e ↦ absurd (ground (arith, t, e))
        | inr e ↦
            absurd (
              used count (ground (arith, t))
                (ap (λ i. (table i).state) (sym (from_zero count)) ∙ e))
      ]
    ] in
    elim (Bool-cases (ltb (suc k) count)) [
      | inl t ↦
          let inside = c.starts_inside (suc k) (ground (arith, t)) in absurd (omega (arith, inside))
      | inr t ↦ ground (arith, t, enough)
    ]

-- A size between two multiples of 32 and a used process for each entry that begins inside: what is
-- written ends at the next multiple, beyond the bytes that argptr has checked.
pub getptable_overruns :
    (table : ℕ → Proc) (k rest : ℕ)
    → 0 < rest
    → rest < 32
    → ((i : ℕ) → i ≤ k → (table i).state ≢ 0)
    → let size = 32 * k + rest in
      let end = end_of 0 (sys_getptable table (some (pos size)) true).1 in
      (end ≡ 32 * suc k) × (size < end)
getptable_overruns table k rest some_left less used =
    let (count, e, c) = sys_getptable_lem table (pos (32 * k + rest)) in
    let ends : end_of 0 (sys_getptable table (some (pos (32 * k + rest))) true).1 ≡ 32 * suc k =
      ap (λ r. end_of 0 r.1) e
      ∙ end_of-entries table count 0 0
      ∙ from_zero (32 * count)
      ∙ ap (λ n. 32 * n) (count_lem table k rest count some_left less used c) in
    (ends, omega (arith, ends))
