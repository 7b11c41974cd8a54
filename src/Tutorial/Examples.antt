-- ===== src/Tutorial/Examples.antt =====
-- Assignment3/Tutorial_3: the theorem on a word between two processes at a concrete input.
use osassignments.Common.{◌≡◌, ◌≢◌, some, List, [], ◌∷◌, arith}
use osassignments.Shell.Text.{Text, text}
use osassignments.Tutorial.Forked.{
  parent_over, killed, child_over, forked, Process, parent, child, run,
}
use osassignments.Tutorial.Ends.{word_delivered}

-- The child waits before and behind the entering of the word.
abbrev turns : List Process
turns = child ∷ child ∷ parent ∷ child ∷ parent ∷ child ∷ []

word_delivered_example :
    let s = run (text "hi") turns (forked (104 ∷ 111 ∷ 0 ∷ [])) in
    (s.parent ≢ killed)
    × ((out : Text) → s.printed ≡ some out → out ≡ text "hi")
    × ((more : List Process) × ((run (text "hi") more s).parent ≡ parent_over)
        × ((run (text "hi") more s).child ≡ child_over)
        × ((run (text "hi") more s).printed ≡ some (text "hi")))
word_delivered_example =
    word_delivered (104 ∷ 111 ∷ 0 ∷ []) (text "hi") turns (omega arith) ((λ e. cc), ((λ e. cc), tt))
