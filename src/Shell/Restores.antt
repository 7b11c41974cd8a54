-- ===== src/Shell/Restores.antt =====
-- Assignment3/wonderShell/wonderShell.c: which open file stands behind a descriptor of the shell.
--
-- `Actions`, `Commands`, `Shown`, `Redirects` and `Lines` follow a descriptor through processes, the
-- commands, what they print, redirections and pipelines, and `Loop` through a line of the loop of main.
pub mod Actions
pub mod Commands
pub mod Redirects
pub mod Lines
pub mod Shown
pub mod Loop
use osassignments.Common.{
  ℕ, zero, suc, ◌≡◌, refl, ◌∙◌, Bool, true, false, ◌&&◌, Option, none, some, List, [], ◌∷◌,
  if◌then◌else◌, arith,
}
use osassignments.Common.Int.{ℤ, pos, negsuc, eq_ℤ}
use osassignments.Shell.Process.{
  Call, Os, fork, pipe, getcwd, time, open_tty, open_tty_in, execvp, chdir, waitpid, waitpid_nohang,
  close, read_stat, kill, open_in, unsetenv, open_out, setenv, dup, dup2, listed, reminded, echoed,
  displayed,
}

-- An open file: that of a descriptor at the start, or what the first of the calls has opened; or none,
-- where the descriptor is closed.
pub data OpenFile : Type 0 where
  started : ℤ → OpenFile
  made : List Call → OpenFile
  closed : OpenFile

module _ (os : Os) where
  -- The file behind the descriptor `d` after the calls, where `dup2` works. `freopen` keeps the number.
  unfoldable pub file_at : ℤ → List Call → OpenFile
  file_at d [] = started d
  file_at d (dup2 from to ∷ calls) = if eq_ℤ d to then file_at from calls else file_at d calls
  file_at d (dup from ∷ calls) =
      if eq_ℤ d (os.reply (dup from ∷ calls)) then file_at from calls else file_at d calls
  file_at d (pipe ∷ calls) =
      if eq_ℤ d (os.reply (pipe ∷ calls)) then made (pipe ∷ calls) else file_at d calls
  file_at d (open_in name ∷ calls) =
      if eq_ℤ d (os.reply (open_in name ∷ calls))
      then made (open_in name ∷ calls)
      else file_at d calls
  file_at d (open_out append name ∷ calls) =
      if eq_ℤ d (os.reply (open_out append name ∷ calls))
      then made (open_out append name ∷ calls)
      else file_at d calls
  file_at d (close e ∷ calls) = if eq_ℤ d e then closed else file_at d calls
  file_at d (open_tty ∷ calls) = if eq_ℤ d (pos 1) then made (open_tty ∷ calls) else file_at d calls
  file_at d (open_tty_in ∷ calls) =
      if eq_ℤ d (pos 0) then made (open_tty_in ∷ calls) else file_at d calls
  file_at d (c ∷ calls) = file_at d calls

  -- The call leaves the descriptor alone, but for what it opens itself.
  unfoldable pub is_mild : ℤ → Call → Bool
  is_mild d (dup2 from to) = if eq_ℤ d to then false else true
  is_mild d (close e) = if eq_ℤ d e then false else true
  is_mild d (dup from) = false
  is_mild d open_tty = if eq_ℤ d (pos 1) then false else true
  is_mild d open_tty_in = if eq_ℤ d (pos 0) then false else true
  is_mild d c = true

  -- `calls` follow on `base`, and all of them leave `d` alone.
  pub data Since (d : ℤ) (base : List Call) : List Call → Type 0 where
    here : Since d base base
    more :
        {calls : List Call} (c : Call)
        → is_mild d c ≡ true
        → Since d base calls
        → Since d base (c ∷ calls)

  -- What is opened gets another number than `d`, as long as `d` was not closed.
  pub record IsTaken (d : ℤ) (base : List Call) : Type 0 where
    pub not_pipe :
        (calls : List Call) → Since d base calls → eq_ℤ d (os.reply (pipe ∷ calls)) ≡ false
    pub not_in :
        (name : Option _) (calls : List Call)
        → Since d base calls
        → eq_ℤ d (os.reply (open_in name ∷ calls)) ≡ false
    pub not_out :
        (append : Bool) (name : Option _) (calls : List Call)
        → Since d base calls
        → eq_ℤ d (os.reply (open_out append name ∷ calls)) ≡ false

  module _ {d : ℤ} {base : List Call} (taken : IsTaken d base) where
    file_at-mild :
        (c : Call) (calls : List Call)
        → is_mild d c ≡ true
        → Since d base calls
        → file_at d (c ∷ calls) ≡ file_at d calls
    unfolding file_at is_mild
    file_at-mild (dup2 from to) calls h k = ground arith
    file_at-mild (dup from) calls h k = cc
    file_at-mild open_tty calls h k = ground arith
    file_at-mild open_tty_in calls h k = ground arith
    file_at-mild pipe calls h k = ground (arith, taken.not_pipe calls k)
    file_at-mild (open_in name) calls h k = ground (arith, taken.not_in name calls k)
    file_at-mild (open_out append name) calls h k =
        ground (arith, taken.not_out append name calls k)
    file_at-mild fork calls h k = refl
    file_at-mild getcwd calls h k = refl
    file_at-mild time calls h k = refl
    file_at-mild (execvp name) calls h k = refl
    file_at-mild (chdir name) calls h k = refl
    file_at-mild (waitpid pid) calls h k = refl
    file_at-mild (waitpid_nohang pid) calls h k = refl
    file_at-mild (close e) calls h k = ground arith
    file_at-mild (read_stat pid) calls h k = refl
    file_at-mild (kill pid signal) calls h k = refl
    file_at-mild (unsetenv name) calls h k = refl
    file_at-mild (setenv name value) calls h k = refl
    file_at-mild (listed jobs) calls h k = refl
    file_at-mild (reminded words) calls h k = refl
    file_at-mild (echoed args) calls h k = refl
    file_at-mild (displayed shown) calls h k = refl

    -- The file behind it is the same as before.
    pub Since-file : (calls : List Call) → Since d base calls → file_at d calls ≡ file_at d base
    Since-file _ here = refl
    Since-file _ (more {calls} c h k) = file_at-mild c calls h k ∙ Since-file calls k
