-- ===== src/Drafts/Scan.antt =====
-- Assignment3/wonderShell/exp1.c: the loop of `chkFile`, which exp.c and wonder.c have as well.
--
-- What it does for an input at a place, and for an output that is appended or not, are parameters.
use osassignments.Common.{
  ℕ, zero, suc, ◌+◌, ◌≡◌, ap, ◌∙◌, Bool, true, false, Option, none, some, if◌then◌else◌, ◌==◌, Each,
  arith,
}
use osassignments.Shell.Inbuild.{args_from}
use osassignments.Shell.Process.{M, Shell, ◌>>=◌, ◌>>◌, pure}
use osassignments.Shell.Redirect.{sign_at}
use osassignments.Shell.Redirect.Laws.{IsPlain, no_further, one_further, same_words, sign_at-plain}

-- `inrediredted` and `redirected`.
pub record Found : Type 0 where
  pub in_redirected : Bool
  pub redirected : Bool

abbrev pub nothing_found : Found
nothing_found = record { in_redirected = false; redirected = false }

module _ (input : ℕ → M Unit) (output : ℕ → Bool → M Unit) where
  -- From `n` on, with `left` words left; `none` where a missing name ends the function.
  unfoldable pub scan : ℕ → ℕ → ℕ → Found → M (Option Found)
  unfolding sign_at
  scan len zero n found = pure (some found)
  scan len (suc left) n found = do
    sign ← sign_at n
    if sign == 0
        then scan len left (suc n) found
        else if sign == 1
        then (input n >> scan len left (suc n) (record { in_redirected = true; redirected = true }))
        else if suc n == len
        then pure none
        else (output n (sign == 3) >> scan len left (suc n) (record found { redirected = true }))

  -- Words that are no redirections are passed over.
  pub scan-plain :
      (len k left words n : ℕ) (found : Found) (s : Shell)
      → words ≡ k + left
      → Each IsPlain (args_from n k s.list)
      → scan len words n found s ≡ scan len left (n + k) found s
  unfolding scan args_from
  scan-plain len zero left words n found s e h =
      ap (λ w. scan len w n found s) (same_words e)
      ∙ ap (λ m. scan len left m found s) (no_further n)
  scan-plain len (suc k) left zero n found s e h = absurd (omega (arith, e))
  scan-plain len (suc k) left (suc words) n found s e h = rw (sign_at-plain n s h.0) (
      scan-plain len k left words (suc n) found s (omega (arith, e)) h.1
      ∙ ap (λ m. scan len left m found s) (one_further n k))
