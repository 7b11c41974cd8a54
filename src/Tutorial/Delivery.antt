-- ===== src/Tutorial/Delivery.antt =====
-- Assignment3/Tutorial_3/3_pipefork.c: the child reads the word of the parent, in any order of turns.
use osassignments.Common.{
  ℕ, ◌≡◌, refl, ap, Bool, true, false, ◌||◌, none, some, List, [], ◌∷◌, ◌++◌, arith,
}
use osassignments.Shell.Text.{Text}
use osassignments.Tutorial.Words.{with_end, read_into, till_null}
use osassignments.Tutorial.Forked.{
  ParentPc, ChildPc, writes, parent_over, killed, reads, child_over, Pair, Process, parent, child,
  parent_at, child_at, read_word, turn, run,
}

-- Before and behind the write of the parent.
abbrev pub is_early : ParentPc → Bool
is_early ParentPc.shuts_reading = true
is_early writes = true
is_early p = false

abbrev pub is_late : ParentPc → Bool
is_late ParentPc.shuts_writing = true
is_late parent_over = true
is_late p = false

-- In front of the read of the child.
abbrev pub awaits : ChildPc → Bool
awaits ChildPc.shuts_writing = true
awaits reads = true
awaits p = false

-- Nothing is written; the word is in the pipe; the child has it.
pub data Stage (word : Text) (s : Pair) : Type 0 where
  unwritten :
      is_early s.parent ≡ true
      → awaits s.child ≡ true
      → s.pipe ≡ []
      → s.printed ≡ none
      → s.child_reads ≡ true
      → s.parent_writes ≡ true
      → Stage word s
  written :
      is_late s.parent ≡ true
      → awaits s.child ≡ true
      → s.pipe ≡ with_end word
      → s.printed ≡ none
      → s.child_reads ≡ true
      → Stage word s
  delivered :
      is_late s.parent ≡ true
      → awaits s.child ≡ false
      → (f_content : List ℕ) → s.printed ≡ some (till_null (read_into f_content (with_end word)))
      → Stage word s

writes-written :
    (word : Text) (s : Pair)
    → awaits s.child ≡ true
    → s.pipe ≡ []
    → s.printed ≡ none
    → s.child_reads ≡ true
    → Stage word (parent_at word writes s)
unfolding parent_at
writes-written word s c p f r =
    rw (any_reader s.parent_reads s.child_reads r)
      (written refl c (ap (λ bytes. bytes ++ with_end word) p) f r)
  where
    any_reader : (a b : Bool) → b ≡ true → (a || b) ≡ true
    any_reader a b h = ground (arith, h)

parent_at-Stage :
    (word : Text) (p : ParentPc) (s : Pair)
    → s.parent ≡ p
    → Stage word s
    → Stage word (parent_at word p s)
unfolding parent_at
parent_at-Stage word ParentPc.shuts_reading s e (unwritten a c p f r w) = unwritten refl c p f r w
parent_at-Stage word writes s e (unwritten a c p f r w) = writes-written word s c p f r
parent_at-Stage word ParentPc.shuts_writing s e (unwritten a c p f r w) = absurd (cc (e, a))
parent_at-Stage word parent_over s e (unwritten a c p f r w) = absurd (cc (e, a))
parent_at-Stage word killed s e (unwritten a c p f r w) = absurd (cc (e, a))
parent_at-Stage word ParentPc.shuts_reading s e (written a c p f r) = absurd (cc (e, a))
parent_at-Stage word writes s e (written a c p f r) = absurd (cc (e, a))
parent_at-Stage word ParentPc.shuts_writing s e (written a c p f r) = written refl c p f r
parent_at-Stage word parent_over s e (written a c p f r) = written a c p f r
parent_at-Stage word killed s e (written a c p f r) = written a c p f r
parent_at-Stage word ParentPc.shuts_reading s e (delivered a c g f) = absurd (cc (e, a))
parent_at-Stage word writes s e (delivered a c g f) = absurd (cc (e, a))
parent_at-Stage word ParentPc.shuts_writing s e (delivered a c g f) = delivered refl c g f
parent_at-Stage word parent_over s e (delivered a c g f) = delivered a c g f
parent_at-Stage word killed s e (delivered a c g f) = delivered a c g f

-- A read that finds no byte waits while the parent can write.
reads-unwritten :
    (bytes : List ℕ) (s : Pair) → bytes ≡ [] → s.parent_writes ≡ true → read_word bytes s ≡ s
unfolding read_word
reads-unwritten [] s e w = rw w refl
reads-unwritten (c ∷ bytes) s e w = cc

reads-written :
    (word : Text) (bytes : List ℕ) (s : Pair)
    → bytes ≡ with_end word
    → is_late s.parent ≡ true
    → Stage word (read_word bytes s)
unfolding read_word
reads-written [] [] s e a = cc
reads-written (d ∷ word) [] s e a = cc
reads-written word (c ∷ bytes) s e a =
    delivered a refl s.f_content (ap (λ b. some (till_null (read_into s.f_content b))) e)

child_at-Stage :
    (word : Text) (p : ChildPc) (s : Pair) → s.child ≡ p → Stage word s → Stage word (child_at p s)
unfolding child_at
child_at-Stage word ChildPc.shuts_writing s e (unwritten a c p f r w) = unwritten a refl p f r w
child_at-Stage word reads s e (unwritten a c p f r w) =
    rw (reads-unwritten s.pipe s p w) (unwritten a c p f r w)
child_at-Stage word ChildPc.shuts_reading s e (unwritten a c p f r w) = absurd (cc (e, c))
child_at-Stage word child_over s e (unwritten a c p f r w) = unwritten a c p f r w
child_at-Stage word ChildPc.shuts_writing s e (written a c p f r) = written a refl p f r
child_at-Stage word reads s e (written a c p f r) = reads-written word s.pipe s p a
child_at-Stage word ChildPc.shuts_reading s e (written a c p f r) = absurd (cc (e, c))
child_at-Stage word child_over s e (written a c p f r) = written a c p f r
child_at-Stage word ChildPc.shuts_writing s e (delivered a c g f) = absurd (cc (e, c))
child_at-Stage word reads s e (delivered a c g f) = absurd (cc (e, c))
child_at-Stage word ChildPc.shuts_reading s e (delivered a c g f) = delivered a refl g f
child_at-Stage word child_over s e (delivered a c g f) = delivered a c g f

pub turn-Stage : (word : Text) (p : Process) (s : Pair) → Stage word s → Stage word (turn word p s)
unfolding turn
turn-Stage word parent s h = parent_at-Stage word s.parent s refl h
turn-Stage word child s h = child_at-Stage word s.child s refl h

pub run-Stage :
    (word : Text) (ps : List Process) (s : Pair) → Stage word s → Stage word (run word ps s)
unfolding run
run-Stage word [] s h = h
run-Stage word (p ∷ ps) s h = run-Stage word ps (turn word p s) (turn-Stage word p s h)
