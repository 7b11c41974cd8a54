-- ===== src/Shell/Pipeline.antt =====
-- Assignment3/wonderShell/wonderShell.c: `executeCommand` and `fork_pipes`, which run a pipeline.
--
-- `chkInpt` has no return at its end, so for a command that is not `ls` the test of its result may
-- go either way: `stray` says which, for each name. The call of `pipe` stands twice among the calls,
-- and gives its end to read and then its end to write.
pub mod Laws
pub mod Numbered
pub mod Descriptors
use osassignments.Common.{
  ℕ, zero, suc, ◌+◌, Bool, true, false, ◌||◌, Option, none, some, List, [], ◌∷◌, if◌then◌else◌,
  ◌==◌, get_elem?, length,
}
use osassignments.Common.Int.{ℤ, pos, eq_ℤ}
use osassignments.Shell.Text.{Text, text, same_text}
use osassignments.Shell.Process.{
  M, Os, Shell, ◌>>=◌, ◌>>◌, arg, call, close, crash, done, dup2, fork, leave, pipe, pure,
  run_child, wait_until_ended,
}
use osassignments.Shell.Dispatch.{Show}
use osassignments.Shell.Redirect.{chk_file}

-- The arguments of a command, with NULL behind the words.
abbrev pub load : List Text → M Unit
load cmd s = done tt (record s { list = get_elem? cmd })

module _ (os : Os) (rounds : ℕ) (home : Text) (shows : Show → ℕ → M Unit)
    (stray : Text → Bool) where
  unfoldable pub chk_inpt_name : Option Text → M Bool
  chk_inpt_name none = crash
  chk_inpt_name (some name) = pure (same_text name (text "ls") || stray name)

  -- `chkInpt(cmd->argv, cmd->len) == 1`
  unfoldable pub chk_inpt : M Bool
  unfolding chk_inpt_name
  chk_inpt = arg 0 >>= chk_inpt_name

  -- `if (from != to) { dup2(from, to); close(from); }`
  unfoldable pub redirect : ℤ → ℤ → M Unit
  unfolding call
  redirect from to =
      if eq_ℤ from to then pure tt else (call os (dup2 from to) >> call os (close from) >> pure tt)

  unfoldable pub execute_command : ℤ → ℤ → List Text → M Unit
  unfolding call chk_inpt redirect run_child
  execute_command input output cmd = do
    load cmd
    inside ← chk_inpt
    if inside
        then (redirect input (pos 0)
            >> redirect output (pos 1)
            >> chk_file os rounds home shows (length cmd))
        else do
          pid ← call os fork
          if eq_ℤ pid (pos 0)
              then (redirect input (pos 0) >> redirect output (pos 1) >> run_child os)
              else pure tt

  -- Behind the loop: the last command. Its process does not exit.
  unfoldable pub last_stage : ℤ → List Text → M Unit
  unfolding call wait_until_ended
  last_stage input cmd = do
    if eq_ℤ input (pos 0) then pure tt else (call os (dup2 input (pos 0)) >> pure tt)
    pid ← call os fork
    load cmd
    if eq_ℤ pid (pos 0)
        then chk_file os rounds home shows (length cmd)
        else wait_until_ended os rounds pid

  -- The loop from the command `cmd` on, with `in` in front of it.
  unfoldable pub stages_from : ℤ → List Text → List (List Text) → M Unit
  unfolding execute_command last_stage
  stages_from input cmd [] = last_stage input cmd
  stages_from input cmd (next ∷ cmds) = do
    out_end ← call os pipe
    in_end ← call os pipe
    execute_command input in_end cmd
    call os (close in_end)
    stages_from out_end next cmds

  -- For at least one command, as `pipe_split_command` calls it.
  unfoldable pub fork_pipes : List (List Text) → M Unit
  unfolding stages_from
  fork_pipes [] = pure tt
  fork_pipes (cmd ∷ cmds) = stages_from (pos 0) cmd cmds
