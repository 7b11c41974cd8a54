-- ===== src/Kernel/Examples.antt =====
-- Assignment5/xv6-public/sysproc.c and invertcase.c: the theorems at concrete inputs.
use osassignments.Common.{
  ℕ, ◌+◌, ◌<◌, ◌≡◌, true, some, List, [], ◌∷◌, map, ltb, if◌then◌else◌, arith,
}
use osassignments.Common.Int.{pos}
use osassignments.Reversal.{invert_case}
use osassignments.Kernel.Table.{
  Proc, sys_getptable, entries, end_of, IsCount, sys_getptable_lem, getptable_overruns,
}
use osassignments.Kernel.Invert.{invert_word, invert_word-invert_word}

-- Two processes, init and the shell.
abbrev two_processes : ℕ → Proc
two_processes i = record {
  state = if ltb i 2 then 3 else 0;
  pid = pos (i + 1);
  parent_pid = pos i;
  name = [];
  priority = pos 60;
}

sys_getptable_lem_example :
    (count : ℕ) × (sys_getptable two_processes (some (pos 100)) true
      ≡ (pos 0, entries two_processes count 0 0))
    × IsCount two_processes 100 0 0 count
sys_getptable_lem_example = sys_getptable_lem two_processes (pos 100)

getptable_overruns_example :
    let end = end_of 0 (sys_getptable two_processes (some (pos 40)) true).1 in
    (end ≡ 64) × (40 < end)
getptable_overruns_example =
    getptable_overruns two_processes 1 8 (omega arith) (omega arith) (λ i h. ground arith)

invert_word-invert_word_example :
    let word : List ℕ = b'x' ∷ b'V' ∷ b'6' ∷ [] in
    (invert_word (invert_word word) ≡ word) × (invert_word word ≡ map invert_case word)
invert_word-invert_word_example = invert_word-invert_word (b'x' ∷ b'V' ∷ b'6' ∷ [])
