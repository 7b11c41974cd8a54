-- ===== src/FirstShell/Lines.antt =====
-- Assignment2/wonderShell/wonderShell.c: `splitcommands` and the loop of `main`.
--
-- The lines that the user enters are a list. Behind the last one `read_command` calls itself for
-- ever: the outcome is `waiting`.
use osassignments.Common.{ℕ, ◌≡◌, refl, false, List, [], ◌∷◌, if◌then◌else◌, length, map}
use osassignments.Shell.Text.{Text, text, has_char, same_text, tokens}
use osassignments.Shell.Parse
use osassignments.Shell.Parse.{alone, plain_requests}
use osassignments.Shell.Process.{M, Os, ◌>>◌, call, getcwd, leave, pure, waiting}
use osassignments.Shell.Main.{fill, look_at_alarm}
use osassignments.Shell.Shows.{World, shows}
use osassignments.FirstShell.Status.{StatusFile}
use osassignments.FirstShell.Commands.{execute_inbuild}

-- The words of each part.
unfoldable pub split_parts : List Text → List (List Text)
unfolding tokens
split_parts [] = []
split_parts (token1 ∷ parts) = tokens (text " \n") token1 ∷ split_parts parts

unfoldable pub splitcommands : Text → List (List Text)
unfolding split_parts tokens
splitcommands str = split_parts (tokens (text ";") str)

module _ (os : Os) (rounds : ℕ) (home : Text) (world : World) (self : StatusFile)
    (others : Text → StatusFile) where
  unfoldable pub run_commands : List (List Text) → M Unit
  unfolding execute_inbuild
  run_commands [] = pure tt
  run_commands (cmd ∷ cmds) = do
    fill cmd
    execute_inbuild os rounds home world self others (length cmd)
    run_commands cmds

  unfoldable pub main_loop : List Text → M Unit
  unfolding call look_at_alarm run_commands splitcommands
  main_loop [] = waiting
  main_loop (line ∷ lines) = do
    call os getcwd
    look_at_alarm os rounds home (shows world) (λ word. false)
    if same_text line (text "exit\n")
        then leave
        else (run_commands (splitcommands line) >> main_loop lines)

plain_requests-split_parts :
    (parts : List Text) → plain_requests parts ≡ map alone (split_parts parts)
unfolding plain_requests split_parts
plain_requests-split_parts [] = refl
plain_requests-split_parts (token ∷ parts) = rw (plain_requests-split_parts parts) refl

-- A line without a pipe is split into the same commands, with the same words, as by the later shell.
splitcommands-splitcommands :
    (str : Text)
    → has_char b'|' str ≡ false
    → Parse.splitcommands str ≡ map alone (splitcommands str)
unfolding splitcommands Parse.splitcommands
splitcommands-splitcommands str h = rw h (plain_requests-split_parts (tokens (text ";") str))
