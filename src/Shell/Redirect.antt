-- ===== src/Shell/Redirect.antt =====
-- Assignment3/wonderShell/wonderShell.c: `chkFile`, which looks for redirections and runs a
-- command.
pub mod Laws
use osassignments.Common.{
  ℕ, zero, suc, ◌+◌, ◌-◌, Bool, true, false, Option, none, some, List, [], ◌∷◌, if◌then◌else◌, ◌==◌,
}
use osassignments.Common.Int.{ℤ, pos, eq_ℤ, ltb_ℤ}
use osassignments.Shell.Text.{Text, text}
use osassignments.Shell.Process.{
  M, Os, Shell, ◌>>=◌, ◌>>◌, arg, arg_is, call, close, dup2, open_in, open_out, open_tty, pure,
  set_null,
}
use osassignments.Shell.Dispatch.{Show, execute_inbuild}

-- What the loop of `chkFile` finds at `n`: nothing, an input, or an output that it appends or not.
unfoldable pub sign_at : ℕ → M ℕ
unfolding arg_is
sign_at n = do
  input ← arg_is n (text "<")
  output ← arg_is n (text ">")
  add ← arg_is n (text ">>")
  pure (if input then 1 else if output then 2 else if add then 3 else 0)

module _ (os : Os) (rounds : ℕ) (home : Text) (shows : Show → ℕ → M Unit) where
  -- With the file `target` open.
  unfoldable pub write_to : ℕ → ℤ → M Unit
  unfolding call
  write_to len target = do
    moved ← call os (dup2 target (pos 1))
    if eq_ℤ moved (pos 1)
        then (execute_inbuild os rounds home shows len
            >> call os (close target)
            >> call os open_tty
            >> pure tt)
        else pure tt

  -- `len -= 2` happens with `n` in front of the last word, so `len` is at least 2.
  unfoldable pub output_file_at : ℕ → ℕ → Bool → M Unit
  unfolding call write_to
  output_file_at len n append = do
    name ← arg (suc n)
    target ← call os (open_out append name)
    if ltb_ℤ target (pos 0) then pure tt else write_to (len - 2) target

  unfoldable pub input_file_from : ℕ → ℕ → M Unit
  unfolding call
  input_file_from len n = if suc n == len then pure tt else do
    set_null n
    name ← arg (suc n)
    target ← call os (open_in name)
    call os (close (pos 0))
    call os (dup2 target (pos 0))
    call os (close target)
    pure tt

  -- The loop from `n` on, with `left` words left: whether there was a redirection, and `none` where
  -- a missing name ends the function.
  unfoldable pub redirections : ℕ → ℕ → ℕ → Bool → M (Option Bool)
  unfolding sign_at input_file_from output_file_at
  redirections len zero n redirected = pure (some redirected)
  redirections len (suc left) n redirected = do
    sign ← sign_at n
    if sign == 0
        then redirections len left (suc n) redirected
        else if sign == 1
        then (input_file_from len n >> redirections len left (suc n) true)
        else if suc n == len
        then pure none
        else (output_file_at len n (sign == 3) >> redirections len left (suc n) true)

  unfoldable pub run_redirected : ℕ → Option Bool → M Unit
  run_redirected len none = pure tt
  run_redirected len (some true) = execute_inbuild os rounds home shows len
  run_redirected len (some false) = do
    execute_inbuild os rounds home shows len
    execute_inbuild os rounds home shows len

  unfoldable pub chk_file : ℕ → M Unit
  unfolding redirections run_redirected
  chk_file len = do found ← redirections len len 0 false; run_redirected len found
