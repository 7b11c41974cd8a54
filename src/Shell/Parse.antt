-- ===== src/Shell/Parse.antt =====
-- Assignment3/wonderShell/wonderShell.c: how a line becomes commands.
--
-- A command is the list of its words, which stands for its first `len` arguments; the code leaves
-- the arguments behind them unset (`splitcommands`) or puts one NULL there (`pipe_split_line`).
-- The limits of 50 words and of 100 commands in a pipe are left out.
pub mod Laws
pub mod Pipes
use osassignments.Common.{
  ℕ, suc, Bool, true, false, List, [], ◌∷◌, ◌++◌, if◌then◌else◌, map, length, ltb,
}
use osassignments.Shell.Text.{Text, text, has_char, tokens}

-- `DILIMITOR_WORD`, `DILIMITOR_COMMAND` and `DILIMITOR_PIPE`.
abbrev pub dilimitor_word : Text
dilimitor_word = 32 ∷ 9 ∷ 10 ∷ 13 ∷ []

abbrev pub dilimitor_command : Text
dilimitor_command = b';' ∷ 10 ∷ []

abbrev pub dilimitor_pipe : Text
dilimitor_pipe = b'|' ∷ 10 ∷ []

-- A call that the shell makes for a part of the line: `chkFile` of one command, or `fork_pipes`.
pub data Request : Type 0 where
  alone : List Text → Request
  piped : List (List Text) → Request

abbrev pub pipe_split_line : Text → List Text
pipe_split_line line = tokens dilimitor_word line

-- The body of the outer loop of `pipe_split_command`, for `list` with its `counter` parts.
unfoldable pub request_pipe : List Text → List Request → List Request
request_pipe list rest =
    if ltb 1 (length list) then piped (map pipe_split_line list) ∷ rest else rest

unfoldable pub pipe_requests : List Text → List Request
unfolding request_pipe
pipe_requests [] = []
pipe_requests (token ∷ parts) = request_pipe (tokens dilimitor_pipe token) (pipe_requests parts)

abbrev pub pipe_split_command : Text → List Request
pipe_split_command line = pipe_requests (tokens dilimitor_command line)

-- The `else` of `splitcommands`, with its own delimiters: a tab is no delimiter here.
unfoldable pub plain_requests : List Text → List Request
plain_requests [] = []
plain_requests (token ∷ parts) = alone (tokens (32 ∷ 10 ∷ []) token) ∷ plain_requests parts

unfoldable pub splitcommands : Text → List Request
unfolding pipe_requests plain_requests
splitcommands str =
    if has_char b'|' str then pipe_split_command str else plain_requests (tokens (b';' ∷ []) str)
