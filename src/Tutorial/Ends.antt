-- ===== src/Tutorial/Ends.antt =====
-- Assignment3/Tutorial_3/3_pipefork.c: what the child prints, and how both processes end.
use osassignments.Common.{
  ℕ, zero, suc, ◌<◌, ◌≤◌, ◌≡◌, ◌≢◌, refl, sym, ap, subst, ◌∙◌, true, some, List, [], ◌∷◌, ◌++◌,
  Each, length, arith,
}
use osassignments.Shell.Text.{Text}
use osassignments.Tutorial.Words.{with_end, word_through}
use osassignments.Tutorial.Forked.{
  ParentPc, ChildPc, writes, parent_over, killed, reads, child_over, Pair, forked, Process, parent,
  child, parent_at, child_at, read_word, turn, run,
}
use osassignments.Tutorial.Delivery.{
  Stage, unwritten, written, delivered, is_late, turn-Stage, run-Stage,
}

parent_left : ParentPc → ℕ
parent_left ParentPc.shuts_reading = 3
parent_left writes = 2
parent_left ParentPc.shuts_writing = 1
parent_left parent_over = 0
parent_left killed = 0

child_left : ChildPc → ℕ
child_left ChildPc.shuts_writing = 3
child_left reads = 2
child_left ChildPc.shuts_reading = 1
child_left child_over = 0

turn-parent_left :
    (word : Text) (n : ℕ) (s : Pair)
    → parent_left s.parent ≤ suc n
    → parent_left (turn word parent s).parent ≤ n
unfolding turn parent_at parent_left
turn-parent_left word n s h = ground (arith, h)

-- Behind the write of the parent the child goes on.
reads-goes_on :
    (word : Text) (bytes : List ℕ) (s : Pair)
    → bytes ≡ with_end word
    → (read_word bytes s).child ≡ ChildPc.shuts_reading
unfolding read_word
reads-goes_on [] [] s e = cc
reads-goes_on (d ∷ word) [] s e = cc
reads-goes_on word (c ∷ bytes) s e = refl

child_at-left :
    (word : Text) (n : ℕ) (p : ChildPc) (s : Pair)
    → s.child ≡ p
    → Stage word s
    → is_late s.parent ≡ true
    → child_left p ≤ suc n
    → child_left (child_at p s).child ≤ n
unfolding child_at child_left
child_at-left word n ChildPc.shuts_writing s e st late h = omega (arith, h)
child_at-left word n reads s e (unwritten a c p f r w) late h = absurd (ground (arith, a, late))
child_at-left word n reads s e (written a c p f r) late h =
    rw (reads-goes_on word s.pipe s p) (omega (arith, h))
child_at-left word n reads s e (delivered a c g f) late h = absurd (cc (e, c))
child_at-left word n ChildPc.shuts_reading s e st late h = omega (arith, h)
child_at-left word n child_over s e st late h = rw e (omega arith)

-- The child leaves the parent where it is.
turn-same_parent : (word : Text) (s : Pair) → (turn word child s).parent ≡ s.parent
unfolding turn
turn-same_parent word s = go s.child
  where
    reading : (bytes : List ℕ) → (read_word bytes s).parent ≡ s.parent
    reading bytes = ground arith

    go : (p : ChildPc) → (child_at p s).parent ≡ s.parent
    go p = ground (arith, reading s.pipe)

child_ends :
    (word : Text) (n : ℕ) (s : Pair)
    → Stage word s
    → is_late s.parent ≡ true
    → child_left s.child ≤ n
    → (ps : List Process) × ((run word ps s).parent ≡ s.parent)
      × (child_left (run word ps s).child ≡ 0)
unfolding run turn
child_ends word zero s st late h = ([], refl, omega (arith, h))
child_ends word (suc n) s st late h =
    let same = turn-same_parent word s in
    let (ps, kept, ends) =
      child_ends word n (turn word child s) (turn-Stage word child s st)
        (subst (λ p. is_late p ≡ true) (sym same) late)
        (child_at-left word n s.child s refl st late h) in
    (child ∷ ps, kept ∙ same, ends)

parent_ends :
    (word : Text) (n : ℕ) (s : Pair)
    → parent_left s.parent ≤ n
    → (ps : List Process) × (parent_left (run word ps s).parent ≡ 0)
unfolding run
parent_ends word zero s h = ([], omega (arith, h))
parent_ends word (suc n) s h =
    let (ps, ends) = parent_ends word n (turn word parent s) (turn-parent_left word n s h) in
    (parent ∷ ps, ends)

over_of : (p : ParentPc) → parent_left p ≡ 0 → p ≢ killed → p ≡ parent_over
unfolding parent_left
over_of ParentPc.shuts_reading h k = absurd (omega (arith, h))
over_of writes h k = absurd (omega (arith, h))
over_of ParentPc.shuts_writing h k = absurd (omega (arith, h))
over_of parent_over h k = refl
over_of killed h k = absurd (k refl)

child_over_of : (p : ChildPc) → child_left p ≡ 0 → p ≡ child_over
unfolding child_left
child_over_of ChildPc.shuts_writing h = absurd (omega (arith, h))
child_over_of reads h = absurd (omega (arith, h))
child_over_of ChildPc.shuts_reading h = absurd (omega (arith, h))
child_over_of child_over h = refl

Stage-lives : (word : Text) (s : Pair) → Stage word s → s.parent ≢ killed
Stage-lives word s (unwritten a c p f r w) e = cc (e, a)
Stage-lives word s (written a c p f r) e = cc (e, a)
Stage-lives word s (delivered a c g f) e = cc (e, a)

Stage-printed :
    (word : Text) (s : Pair) (out : Text)
    → length word < 100
    → Each (λ c. c ≢ 0) word
    → Stage word s
    → s.printed ≡ some out
    → out ≡ word
Stage-printed word s out lt h (unwritten a c p f r w) e = cc (e, f)
Stage-printed word s out lt h (written a c p f r) e = cc (e, f)
Stage-printed word s out lt h (delivered a c g f) e = cc (e, f, word_through g word lt h)

Stage-over :
    (word : Text) (s : Pair)
    → length word < 100
    → Each (λ c. c ≢ 0) word
    → Stage word s
    → s.child ≡ child_over
    → s.printed ≡ some word
Stage-over word s lt h (unwritten a c p f r w) e = absurd (cc (e, c))
Stage-over word s lt h (written a c p f r) e = absurd (cc (e, c))
Stage-over word s lt h (delivered a c g f) e = cc (f, word_through g word lt h)

forked-Stage : (f_content : List ℕ) (word : Text) → Stage word (forked f_content)
forked-Stage f_content word = unwritten refl refl refl refl refl refl

run-append :
    (word : Text) (ps qs : List Process) (s : Pair)
    → run word (ps ++ qs) s ≡ run word qs (run word ps s)
unfolding run
run-append word [] qs s = refl
run-append word (p ∷ ps) qs s = run-append word ps qs (turn word p s)

-- Whatever the order of the turns, and whatever stood in `f_content`, the parent is not killed by its
-- write, and the child prints nothing but the word of the parent, if that has less than 100 letters.
-- From there on some further turns bring both processes to their ends, with the word printed.
pub word_delivered :
    (f_content : List ℕ) (word : Text) (ps : List Process)
    → length word < 100
    → Each (λ c. c ≢ 0) word
    → let s = run word ps (forked f_content) in
      (s.parent ≢ killed)
      × ((out : Text) → s.printed ≡ some out → out ≡ word)
      × ((more : List Process) × ((run word more s).parent ≡ parent_over)
          × ((run word more s).child ≡ child_over)
          × ((run word more s).printed ≡ some word))
word_delivered f_content word ps lt h =
    let s = run word ps (forked f_content) in
    let st = run-Stage word ps (forked f_content) (forked-Stage f_content word) in
    let (first, gone) = parent_ends word (parent_left s.parent) s (omega arith) in
    let t = run word first s in
    let st2 = run-Stage word first s st in
    let over = over_of t.parent gone (Stage-lives word t st2) in
    let (second, kept, ends) =
      child_ends word (child_left t.child) t st2 (rw over refl) (omega arith) in
    let joined = run-append word first second s in
    let ended = ap (λ u. u.child) joined ∙ child_over_of (run word second t).child ends in
    (
      Stage-lives word s st,
      λ out e. Stage-printed word s out lt h st e,
      (
        first ++ second,
        ap (λ u. u.parent) joined ∙ (kept ∙ over),
        ended,
        Stage-over word (run word (first ++ second) s) lt h (run-Stage word (first ++ second) s st)
            ended,
      ),
    )
