-- ===== src/Tutorial/Forked.antt =====
-- Assignment3/Tutorial_3/3_pipefork.c: the parent writes a word to a pipe, the child reads it.
--
-- The two take turns in any order. Where the pipe is empty the child waits, as long as there is an end
-- to write; without a reader a write kills the parent.
use osassignments.Common.{
  ℕ, Bool, true, false, ◌||◌, Option, none, some, List, [], ◌∷◌, ◌++◌, if◌then◌else◌,
}
use osassignments.Shell.Text.{Text}
use osassignments.Tutorial.Words.{with_end, read_into, till_null}

pub data ParentPc : Type 0 where
  shuts_reading : ParentPc  -- `close(fildes[0])`
  writes : ParentPc  -- behind `sleep` and `scanf`
  shuts_writing : ParentPc  -- `close(fildes[1])`
  parent_over : ParentPc
  killed : ParentPc

pub data ChildPc : Type 0 where
  shuts_writing : ChildPc  -- `close(fildes[1])`
  reads : ChildPc
  shuts_reading : ChildPc  -- behind the output, `close(fildes[0])`
  child_over : ChildPc

-- Each process holds both ends at first. `f_content` and the output are those of the child.
pub record Pair : Type 0 where
  pub parent : ParentPc
  pub child : ChildPc
  pub pipe : List ℕ
  pub parent_reads : Bool
  pub parent_writes : Bool
  pub child_reads : Bool
  pub child_writes : Bool
  pub f_content : List ℕ
  pub printed : Option Text

-- Behind `pipe` and `fork`; `f_content` is not initialised.
abbrev pub forked : List ℕ → Pair
forked f_content = record {
  parent = ParentPc.shuts_reading;
  child = ChildPc.shuts_writing;
  pipe = [];
  parent_reads = true;
  parent_writes = true;
  child_reads = true;
  child_writes = true;
  f_content = f_content;
  printed = none;
}

unfoldable pub parent_at : Text → ParentPc → Pair → Pair
parent_at word ParentPc.shuts_reading s = record s { parent = writes; parent_reads = false }
parent_at word writes s =
    if s.parent_reads || s.child_reads
    then record s { parent = ParentPc.shuts_writing; pipe = s.pipe ++ with_end word }
    else record s { parent = killed }
parent_at word ParentPc.shuts_writing s = record s { parent = parent_over; parent_writes = false }
parent_at word parent_over s = s
parent_at word killed s = s

-- `read`: the bytes that are there, else the end of the file, where no process can write. Then what
-- stands in `f_content` is printed.
unfoldable pub read_word : List ℕ → Pair → Pair
unfolding till_null
read_word [] s =
    if s.parent_writes || s.child_writes
    then s
    else record s { child = ChildPc.shuts_reading; printed = some (till_null s.f_content) }
read_word (c ∷ bytes) s =
    let filled = read_into s.f_content (c ∷ bytes) in
    record s {
      child = ChildPc.shuts_reading;
      pipe = [];
      f_content = filled;
      printed = some (till_null filled);
    }

unfoldable pub child_at : ChildPc → Pair → Pair
unfolding read_word
child_at ChildPc.shuts_writing s = record s { child = reads; child_writes = false }
child_at reads s = read_word s.pipe s
child_at ChildPc.shuts_reading s = record s { child = child_over; child_reads = false }
child_at child_over s = s

pub data Process : Type 0 where
  parent child : Process

unfoldable pub turn : Text → Process → Pair → Pair
unfolding parent_at child_at
turn word parent s = parent_at word s.parent s
turn word child s = child_at s.child s

unfoldable pub run : Text → List Process → Pair → Pair
unfolding turn
run word [] s = s
run word (p ∷ ps) s = run word ps (turn word p s)
