-- ===== src/Shell/Pipeline/Numbered.antt =====
-- Assignment3/wonderShell/wonderShell.c: a system for the pipelines at concrete inputs, in which every
-- call succeeds and gives a number that no descriptor has.
use osassignments.Common.{
  ℕ, suc, ◌+◌, ◌<◌, ◌≡◌, Bool-cases, inl, inr, refl, true, false, none, List, [], ◌∷◌, arith,
}
use osassignments.Common.Int.{ℤ, pos, negsuc, eq_ℤ, ltb_ℤ}
use osassignments.Shell.Process.{
  Call, Os, close, dup, dup2, fork, open_in, open_out, open_tty, open_tty_in, pipe, getcwd, time,
  execvp, chdir, waitpid, waitpid_nohang, read_stat, kill, unsetenv, setenv, listed, reminded,
  echoed, displayed,
}
use osassignments.Shell.Pipeline.Laws.{IsParent, IsPatient}
use osassignments.Shell.Pipeline.Descriptors.{without, is_open, with_opened, open_fds, PipesAbove}

-- No descriptor is above this number and 3.
unfoldable pub top : List Call → ℕ
top [] = 0
top (dup2 from (pos n) ∷ calls) = suc (n + top calls)
top (c ∷ calls) = suc (top calls)

-- Every child has ended by the first look.
abbrev pub numbered : Os
numbered = record {
  reply = λ calls. pos (suc (suc (suc (top calls))));
  ended = λ calls. true;
  letter = λ calls. none;
}

is_open-without :
    (d e : ℤ) (fds : List ℤ) → is_open d fds ≡ false → is_open d (without e fds) ≡ false
unfolding without
is_open-without d e [] h = refl
is_open-without d e (f ∷ fds) h = elim (Bool-cases (eq_ℤ e f)) [
  | inl k ↦ rw k (is_open-without d e fds (ground (arith, h)))
  | inr k ↦ let rest = is_open-without d e fds (ground (arith, h)) in rw k (ground (arith, h, rest))
]

opened-fresh :
    (k n : ℕ) (fds : List ℤ)
    → suc n < suc k
    → is_open (pos (suc (suc (suc k)))) fds ≡ false
    → is_open (pos (suc (suc (suc k)))) (with_opened (pos (suc (suc (suc n)))) fds) ≡ false
unfolding with_opened
opened-fresh k n fds lt h = ground (arith, lt, h)

pub numbered-fresh :
    (k : ℕ) (calls : List Call)
    → top calls < k
    → is_open (pos (suc (suc (suc k)))) (open_fds numbered calls) ≡ false
unfolding top open_fds
numbered-fresh k [] lt = refl
numbered-fresh k (pipe ∷ calls) lt =
    opened-fresh k (suc (top calls)) (open_fds numbered calls) (omega arith)
      (numbered-fresh k calls (omega arith))
numbered-fresh k (open_tty ∷ calls) lt =
    opened-fresh k (suc (top calls)) (open_fds numbered calls) (omega arith)
      (numbered-fresh k calls (omega arith))
numbered-fresh k (open_tty_in ∷ calls) lt =
    opened-fresh k (suc (top calls)) (open_fds numbered calls) (omega arith)
      (numbered-fresh k calls (omega arith))
numbered-fresh k (dup d ∷ calls) lt =
    opened-fresh k (suc (top calls)) (open_fds numbered calls) (omega arith)
      (numbered-fresh k calls (omega arith))
numbered-fresh k (open_in p ∷ calls) lt =
    opened-fresh k (suc (top calls)) (open_fds numbered calls) (omega arith)
      (numbered-fresh k calls (omega arith))
numbered-fresh k (open_out p q ∷ calls) lt =
    opened-fresh k (suc (top calls)) (open_fds numbered calls) (omega arith)
      (numbered-fresh k calls (omega arith))
numbered-fresh k (fork ∷ calls) lt = numbered-fresh k calls (omega arith)
numbered-fresh k (getcwd ∷ calls) lt = numbered-fresh k calls (omega arith)
numbered-fresh k (time ∷ calls) lt = numbered-fresh k calls (omega arith)
numbered-fresh k (execvp p ∷ calls) lt = numbered-fresh k calls (omega arith)
numbered-fresh k (chdir p ∷ calls) lt = numbered-fresh k calls (omega arith)
numbered-fresh k (waitpid p ∷ calls) lt = numbered-fresh k calls (omega arith)
numbered-fresh k (waitpid_nohang p ∷ calls) lt = numbered-fresh k calls (omega arith)
numbered-fresh k (read_stat p ∷ calls) lt = numbered-fresh k calls (omega arith)
numbered-fresh k (kill p q ∷ calls) lt = numbered-fresh k calls (omega arith)
numbered-fresh k (unsetenv p ∷ calls) lt = numbered-fresh k calls (omega arith)
numbered-fresh k (setenv p q ∷ calls) lt = numbered-fresh k calls (omega arith)
numbered-fresh k (listed p ∷ calls) lt = numbered-fresh k calls (omega arith)
numbered-fresh k (reminded p ∷ calls) lt = numbered-fresh k calls (omega arith)
numbered-fresh k (echoed p ∷ calls) lt = numbered-fresh k calls (omega arith)
numbered-fresh k (displayed p ∷ calls) lt = numbered-fresh k calls (omega arith)
numbered-fresh k (close d ∷ calls) lt =
    is_open-without (pos (suc (suc (suc k)))) d (open_fds numbered calls)
      (numbered-fresh k calls (omega arith))
numbered-fresh k (dup2 from (negsuc n) ∷ calls) lt =
    let rest = numbered-fresh k calls (omega arith) in
    elim (Bool-cases (ltb_ℤ (pos 2) (negsuc n))) [
      | inl e ↦ absurd (ground (arith, e))
      | inr e ↦ rw e rest
    ]
numbered-fresh k (dup2 from (pos n) ∷ calls) lt =
    let fds = open_fds numbered calls in
    let rest = numbered-fresh k calls (omega arith) in
    let earlier = is_open-without (pos (suc (suc (suc k)))) (pos n) fds rest in
    elim (Bool-cases (ltb_ℤ (pos 2) (pos n))) [
      | inl e ↦ rw e (ground (arith, lt, earlier))
      | inr e ↦ rw e rest
    ]

pub numbered-IsParent : IsParent numbered
unfolding top
numbered-IsParent calls = ground arith

pub numbered-IsPatient : IsPatient numbered 1
numbered-IsPatient pid calls = (0, omega arith, (λ i lt. absurd (omega arith)), refl)

pub numbered-PipesAbove : PipesAbove numbered
unfolding top
numbered-PipesAbove calls = (ground arith, numbered-fresh (suc (top calls)) calls (omega arith))
