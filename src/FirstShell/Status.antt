-- ===== src/FirstShell/Status.antt =====
-- Assignment2/wonderShell/wonderShell.c: `pinfo` in `executeInbuild`, from `/proc/<pid>/status`.
--
-- The lines of the file are taken to fit into `procInfo`.
use osassignments.Common.{Bool, Option, none, some, List, [], ◌∷◌, get_elem?, if◌then◌else◌}
use osassignments.Shell.Text.{Text, text, starts_with, replace_word, tokens}

-- `no_status` and `no_information` are messages. What is shown is the second word of a line, and the
-- program; `none` where the pointer is null, or was never set.
pub data Status : Type 0 where
  no_status no_information : Status
  shown : Option Text → Option Text → Status

-- What the system tells of a process, and what `procInfo` holds before it is read.
pub record StatusFile : Type 0 where
  pub lines : Option (List Text)
  pub exe : Text
  pub cwd : Text
  pub buffer : Text

abbrev is_memory : Text → Bool
is_memory line = starts_with (text "VmRSS") line

-- The line that `procInfo` holds behind the loop for the shell itself.
unfoldable pub memory_line : Text → List Text → Text
unfolding starts_with
memory_line line [] = line
memory_line line (next ∷ lines) =
    let later = memory_line next lines in if is_memory next then next else later

unfoldable pub show_status : StatusFile → Text → Status
unfolding starts_with replace_word tokens
show_status file line = shown (get_elem? (tokens (text " \n") line) 1) (
    if starts_with file.cwd file.exe
    then some (replace_word file.exe file.cwd (text "~"))
    else none)

own_lines : StatusFile → Option (List Text) → Status
unfolding memory_line show_status
own_lines file none = no_status
own_lines file (some lines) = show_status file (memory_line file.buffer lines)

unfoldable pub pinfo_own : StatusFile → Status
unfolding own_lines
pinfo_own file = own_lines file file.lines

-- The loop for another process goes on while `fgets` gives no line. `none`: it goes on for ever.
other_lines : StatusFile → Option (List Text) → Option Status
unfolding starts_with show_status
other_lines file none = some no_status
other_lines file (some (line ∷ lines)) = some no_information
other_lines file (some []) =
    if is_memory file.buffer then some (show_status file file.buffer) else none

unfoldable pub pinfo_other : StatusFile → Option Status
unfolding other_lines
pinfo_other file = other_lines file file.lines
