-- ===== src/Shell/Restores/Loop.antt =====
-- Assignment3/wonderShell/wonderShell.c: the loop of main gives the shell its input and output back.
use osassignments.Common.{ℕ, ◌≡◌, refl, sym, subst, ◌∙◌, arith, Bool, true, false, List, ◌∷◌}
use osassignments.Common.Int.{ℤ, pos, eq_ℤ}
use osassignments.Shell.Text.{Text}
use osassignments.Shell.Parse.{Request, splitcommands}
use osassignments.Shell.Process.{M, Os, Shell, Call, ◌>>◌, call, close, dup, dup2, getcwd}
use osassignments.Shell.Process.Laws.{IfDone, IfDone-follow}
use osassignments.Shell.Pipeline.Descriptors.{IfDone-and}
use osassignments.Shell.Shows.{World, shows}
use osassignments.Shell.Main.{look_at_alarm, obey, run_requests, update_jobs}
use osassignments.Shell.Restores.{Since, here, IsTaken, Since-file, file_at}
use osassignments.Shell.Restores.Actions.{Keeps}
use osassignments.Shell.Restores.Redirects.{IsHigh}
use osassignments.Shell.Restores.Lines.{Keeps-look_at_alarm, Keeps-run_requests}
use osassignments.Shell.Restores.Shown.{Keeps-shows}

-- The copies of input and output that the loop of main makes, and the calls up to the line.
abbrev pub copy_in : Os → List Call → ℤ
copy_in os calls = os.reply (dup (pos 0) ∷ calls)

abbrev pub copy_out : Os → List Call → ℤ
copy_out os calls = os.reply (dup (pos 1) ∷ dup (pos 0) ∷ calls)

abbrev pub prompted : List Call → List Call
prompted calls = getcwd ∷ dup (pos 1) ∷ dup (pos 0) ∷ calls

-- The copy is not 0 or 1, and what is opened behind it gets another number.
pub record IsKept (os : Os) (d : ℤ) (base : List Call) : Type 0 where
  pub taken : IsTaken os d base
  pub high : IsHigh d

-- Both copies are kept, and differ.
pub record AreKept (os : Os) (calls : List Call) : Type 0 where
  pub input : IsKept os (copy_in os calls) (prompted calls)
  pub output : IsKept os (copy_out os calls) (prompted calls)
  pub differ : eq_ℤ (copy_in os calls) (copy_out os calls) ≡ false

eq_ℤ-self : (a : ℤ) → eq_ℤ a a ≡ true
eq_ℤ-self a = ground arith

eq_ℤ-flip : (a b : ℤ) → eq_ℤ a b ≡ false → eq_ℤ b a ≡ false
eq_ℤ-flip a b h = ground (arith, h)

module _ (os : Os) (calls : List Call) (kept : AreKept os calls) where
  abbrev a : ℤ
  a = copy_in os calls

  abbrev b : ℤ
  b = copy_out os calls

  copied_in : file_at os a (prompted calls) ≡ file_at os (pos 0) calls
  unfolding file_at
  copied_in = rw (kept.differ, eq_ℤ-self a) refl

  copied_out : file_at os b (prompted calls) ≡ file_at os (pos 1) calls
  unfolding file_at
  copied_out = rw (eq_ℤ-self b, eq_ℤ-flip a (pos 1) kept.input.high.not_out) refl

  abbrev moved_back : List Call → List Call
  moved_back now = close b ∷ close a ∷ dup2 b (pos 1) ∷ dup2 a (pos 0) ∷ now

  restored_in :
      (now : List Call)
      → Since os a (prompted calls) now
      → file_at os (pos 0) (moved_back now) ≡ file_at os (pos 0) calls
  unfolding file_at
  restored_in now since =
      rw (eq_ℤ-flip b (pos 0) kept.output.high.not_in, eq_ℤ-flip a (pos 0) kept.input.high.not_in)
        (Since-file os kept.input.taken now since ∙ copied_in)

  restored_out :
      (now : List Call)
      → Since os b (prompted calls) now
      → file_at os (pos 1) (moved_back now) ≡ file_at os (pos 1) calls
  unfolding file_at
  restored_out now since =
      rw
        (
          eq_ℤ-flip b (pos 1) kept.output.high.not_out,
          eq_ℤ-flip a (pos 1) kept.input.high.not_out,
          kept.output.high.not_in,
        )
        (Since-file os kept.output.taken now since ∙ copied_out)

  -- Both copies are left alone.
  abbrev Both : {A : Type 0} → A → Shell → Type 0
  Both r t = Since os a (prompted calls) t.calls × Since os b (prompted calls) t.calls

  Both-of :
      {A : Type 0} (m : M A) (s : Shell)
      → Keeps os a (prompted calls) m
      → Keeps os b (prompted calls) m
      → Both tt s
      → IfDone Both (m s)
  Both-of m s h k (i, j) = IfDone-and _ _ (m s) (h s i) (k s j)

  module _ (rounds : ℕ) (home : Text) (world : World) (stray : Text → Bool) where
    look-Both :
        (s : Shell) → Both tt s → IfDone Both (look_at_alarm os rounds home (shows world) stray s)
    look-Both s =
        Both-of (look_at_alarm os rounds home (shows world) stray) s
          (Keeps-look_at_alarm os a (prompted calls) kept.input.taken kept.input.high rounds home
            (shows world) (Keeps-shows os a (prompted calls) world) stray)
          (Keeps-look_at_alarm os b (prompted calls) kept.output.taken kept.output.high rounds home
            (shows world) (Keeps-shows os b (prompted calls) world) stray)

    requests-Both :
        (requests : List Request) (s : Shell)
        → Both tt s
        → IfDone Both (run_requests os rounds home (shows world) stray requests s)
    requests-Both requests s =
        Both-of (run_requests os rounds home (shows world) stray requests) s
          (Keeps-run_requests os a (prompted calls) kept.input.taken kept.input.high rounds home
            (shows world) (Keeps-shows os a (prompted calls) world) stray requests)
          (Keeps-run_requests os b (prompted calls) kept.output.taken kept.output.high rounds home
            (shows world) (Keeps-shows os b (prompted calls) world) stray requests)

    -- Behind each line that does not end the shell its input and output are the files they were
    -- before the line, whatever commands, redirections and pipelines the line holds, if the system
    -- gives a descriptor that was copied and not closed to nothing else, and the copies are not 0 or
    -- 1. The line is what the loop of main does from the prompt on.
    pub line_restores :
        (line : Text) (s : Shell)
        → s.calls ≡ prompted calls
        → IfDone
            (λ _ t.
              (file_at os (pos 0) t.calls ≡ file_at os (pos 0) calls)
              × (file_at os (pos 1) t.calls ≡ file_at os (pos 1) calls))
            ((look_at_alarm os rounds home (shows world) stray
                >> obey os rounds home (shows world) stray a b line)
              s)
    unfolding obey update_jobs call
    line_restores line s e =
        IfDone-follow Both _ (look_at_alarm os rounds home (shows world) stray s) _
          (look-Both s (
            subst (λ now. Since os a (prompted calls) now × Since os b (prompted calls) now) (sym e)
              (here, here)))
          (λ _ t both.
            IfDone-follow Both _
              (run_requests os rounds home (shows world) stray (splitcommands line) t) _
              (requests-Both (splitcommands line) t both)
              (λ _ u (i, j). (restored_in u.calls i, restored_out u.calls j)))
