-- ===== src/Drafts/Errlog.antt =====
-- Assignment3/wonderShell/wonder.c: `executeCommand` and `fork_pipes`, which are those of exp.c too.
--
-- Every stage opens the file `errlog` and moves the errors of the shell itself to it. `chk` is the
-- `chkFile` of the program. The call of `pipe` stands twice among the calls, and gives its end to read
-- and then its end to write.
use osassignments.Common.{ℕ, true, some, List, [], ◌∷◌, if◌then◌else◌, length}
use osassignments.Common.Int.{ℤ, pos, eq_ℤ}
use osassignments.Shell.Text.{Text, text}
use osassignments.Shell.Process.{
  M, Os, ◌>>=◌, ◌>>◌, call, close, dup2, fork, open_out, pipe, pure, run_child, wait_until_ended,
}
use osassignments.Shell.Pipeline.{load}

module _ (os : Os) (rounds : ℕ) (chk : ℕ → M Unit) where
  -- `if (from != to) { dup2(from, to); close(from); }`
  unfoldable pub redirect : ℤ → ℤ → M Unit
  unfolding call
  redirect from to =
      if eq_ℤ from to then pure tt else (call os (dup2 from to) >> call os (close from) >> pure tt)

  unfoldable pub execute_command : ℤ → ℤ → List Text → M Unit
  unfolding call redirect run_child
  execute_command input output cmd = do
    target ← call os (open_out true (some (text "errlog")))
    call os (dup2 target (pos 2))
    pid ← call os fork
    load cmd
    if eq_ℤ pid (pos 0)
        then (redirect input (pos 0) >> redirect output (pos 1) >> run_child os)
        else pure tt

  -- Behind the loop: the last command. Its process does not exit.
  unfoldable pub last_stage : ℤ → List Text → M Unit
  unfolding call wait_until_ended
  last_stage input cmd = do
    if eq_ℤ input (pos 0) then pure tt else (call os (dup2 input (pos 0)) >> pure tt)
    pid ← call os fork
    load cmd
    if eq_ℤ pid (pos 0) then chk (length cmd) else wait_until_ended os rounds pid

  -- The loop from the command `cmd` on, with `in` in front of it.
  unfoldable pub stages_from : ℤ → List Text → List (List Text) → M Unit
  unfolding call execute_command last_stage
  stages_from input cmd [] = last_stage input cmd
  stages_from input cmd (next ∷ cmds) = do
    out_end ← call os pipe
    in_end ← call os pipe
    execute_command input in_end cmd
    call os (close in_end)
    stages_from out_end next cmds

  -- For at least one command, as `pipe_split_command` calls it.
  unfoldable pub fork_pipes : List (List Text) → M Unit
  unfolding stages_from
  fork_pipes [] = pure tt
  fork_pipes (cmd ∷ cmds) = stages_from (pos 0) cmd cmds
