-- ===== src/Shell/Parse/Pipes.antt =====
-- Assignment3/wonderShell/wonderShell.c: what becomes of a line with pipes.
use osassignments.Common.{◌≡◌, refl, true, false, List, [], ◌∷◌, map, arith}
use osassignments.Shell.Text.{Text, has_char}
use osassignments.Shell.Text.Tokens.{Spells, tokens-Spells}
use osassignments.Shell.Parse.{
  Request, piped, dilimitor_word, dilimitor_command, dilimitor_pipe, pipe_split_line, request_pipe,
  pipe_requests, splitcommands,
}
use osassignments.Shell.Parse.Laws.{SpellsAll}

-- Each part holds the stages that stand at its place, between bars, and each stage its words.
abbrev pub HoldsPipes : List Text → List (List (List Text)) → Type 0
HoldsPipes [] [] = Unit
HoldsPipes (part ∷ parts) (pipe ∷ pipes) =
    ((stages : List Text) × (Spells dilimitor_pipe part stages
        × SpellsAll dilimitor_word stages pipe))
    × HoldsPipes parts pipes
HoldsPipes _ _ = true ≡ false

-- The pipelines with at least two stages.
unfoldable pub real_pipes : List (List (List Text)) → List Request
real_pipes [] = []
real_pipes ([] ∷ pipes) = real_pipes pipes
real_pipes ((stage ∷ []) ∷ pipes) = real_pipes pipes
real_pipes ((stage ∷ next ∷ stages) ∷ pipes) = piped (stage ∷ next ∷ stages) ∷ real_pipes pipes

stages_back :
    (stages : List Text) (pipe : List (List Text))
    → SpellsAll dilimitor_word stages pipe
    → map pipe_split_line stages ≡ pipe
stages_back [] [] h = refl
stages_back [] (words ∷ pipe) h = cc
stages_back (stage ∷ stages) [] h = cc
stages_back (stage ∷ stages) (words ∷ pipe) h =
    rw (tokens-Spells dilimitor_word h.0, stages_back stages pipe h.1) refl

request_pipe-real :
    (stages : List Text) (pipe : List (List Text)) (pipes : List (List (List Text)))
    → SpellsAll dilimitor_word stages pipe
    → request_pipe stages (real_pipes pipes) ≡ real_pipes (pipe ∷ pipes)
unfolding request_pipe real_pipes
request_pipe-real [] [] pipes h = refl
request_pipe-real [] (words ∷ pipe) pipes h = cc
request_pipe-real (stage ∷ stages) [] pipes h = cc
request_pipe-real (stage ∷ []) (words ∷ []) pipes h = refl
request_pipe-real (stage ∷ []) (words ∷ more ∷ pipe) pipes h = cc
request_pipe-real (stage ∷ next ∷ stages) (words ∷ []) pipes h = cc
request_pipe-real (stage ∷ next ∷ stages) (words ∷ more ∷ pipe) pipes h =
    rw (stages_back (stage ∷ next ∷ stages) (words ∷ more ∷ pipe) h) (ground arith)

pipe_requests-real :
    (parts : List Text) (pipes : List (List (List Text)))
    → HoldsPipes parts pipes
    → pipe_requests parts ≡ real_pipes pipes
unfolding pipe_requests real_pipes
pipe_requests-real [] [] h = refl
pipe_requests-real [] (pipe ∷ pipes) h = cc
pipe_requests-real (part ∷ parts) [] h = cc
pipe_requests-real (part ∷ parts) (pipe ∷ pipes) h =
    let (stages, (split, words)) = h.0 in
    rw (tokens-Spells dilimitor_pipe split, pipe_requests-real parts pipes h.1)
      (request_pipe-real stages pipe pipes words)

-- Of a line with a bar, cut into parts at semicolons and line feeds, the parts with at least two stages
-- between bars are run as pipelines, in the order of the line and with the stages and words that stand
-- in them. A part with one command and no pipe of its own is not run at all.
pub splitcommands-piped :
    (line : Text) (parts : List Text) (pipes : List (List (List Text)))
    → has_char b'|' line ≡ true
    → Spells dilimitor_command line parts
    → HoldsPipes parts pipes
    → splitcommands line ≡ real_pipes pipes
unfolding splitcommands
splitcommands-piped line parts pipes bar split holds =
    rw (bar, tokens-Spells dilimitor_command split) (pipe_requests-real parts pipes holds)
