-- ===== src/Shell/Parse/Laws.antt =====
-- Assignment3/wonderShell/wonderShell.c: a line is split into the commands that stand in it.
use osassignments.Common.{◌≡◌, refl, true, false, List, [], ◌∷◌, map}
use osassignments.Shell.Text.{Text, has_char}
use osassignments.Shell.Text.Tokens.{Spells, tokens-Spells}
use osassignments.Shell.Parse.{alone, plain_requests, splitcommands}

-- Each text holds the words that stand at its place.
abbrev pub SpellsAll : Text → List Text → List (List Text) → Type 0
SpellsAll delims [] [] = Unit
SpellsAll delims (part ∷ parts) (words ∷ rest) =
    Spells delims part words × SpellsAll delims parts rest
SpellsAll delims _ _ = true ≡ false

plain_requests-map :
    (parts : List Text) (cmds : List (List Text))
    → SpellsAll (32 ∷ 10 ∷ []) parts cmds
    → plain_requests parts ≡ map alone cmds
unfolding plain_requests
plain_requests-map [] [] h = refl
plain_requests-map [] (cmd ∷ cmds) h = cc
plain_requests-map (part ∷ parts) [] h = cc
plain_requests-map (part ∷ parts) (cmd ∷ cmds) h =
    rw (tokens-Spells (32 ∷ 10 ∷ []) h.0, plain_requests-map parts cmds h.1) refl

-- Each part of a line without a bar, between semicolons, is run on its own, in the order of the line,
-- with the words that stand in it, between spaces and line feeds. A part of spaces and line feeds
-- only, as behind a last semicolon, is a command without words.
pub splitcommands-alone :
    (line : Text) (parts : List Text) (cmds : List (List Text))
    → has_char b'|' line ≡ false
    → Spells (b';' ∷ []) line parts
    → SpellsAll (32 ∷ 10 ∷ []) parts cmds
    → splitcommands line ≡ map alone cmds
unfolding splitcommands
splitcommands-alone line parts cmds plain split words =
    rw (plain, tokens-Spells (b';' ∷ []) split) (plain_requests-map parts cmds words)
