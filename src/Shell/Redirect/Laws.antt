-- ===== src/Shell/Redirect/Laws.antt =====
-- Assignment3/wonderShell/wonderShell.c: how often a command without redirections runs.
use osassignments.Common.{
  ℕ, zero, suc, ◌+◌, ◌-◌, ◌≡◌, refl, ap, ◌∙◌, Bool, true, false, Option, none, some, List, [], ◌∷◌,
  if◌then◌else◌, ◌==◌, arith, Each,
}
use osassignments.Shell.Text.{Text, text, same_text}
use osassignments.Shell.Inbuild.{args_from}
use osassignments.Common.Int.{ℤ, pos, negsuc, eq_ℤ, ltb_ℤ}
use osassignments.Shell.Jobs.{add_job, status_of}
use osassignments.Shell.Process.{
  M, Os, Outcome, Shell, Call, ◌>>◌, back_ground_process, call, check_child, crashed, done,
  enter_job, fork, gone, letter_of, note_job, read_stat, switch_fore_or_back_ground, waiting,
  waitpid_nohang,
}
use osassignments.Shell.Process.Laws.{IfDone, arg_is-none, arg_is-some}
use osassignments.Shell.Dispatch.{Show, execute_inbuild, run_arg, run_named}
use osassignments.Shell.Redirect.{chk_file, redirections, run_redirected, sign_at}

-- A word that is no redirection.
abbrev pub IsPlain : Option Text → Type 0
IsPlain none = true ≡ false
IsPlain (some w) =
    (same_text w (text "<") ≡ false)
    × (same_text w (text ">") ≡ false)
    × (same_text w (text ">>") ≡ false)

-- The names that `executeInbuild` looks for.
abbrev pub inbuild_names : List Text
inbuild_names =
    text "clear"
    ∷ text "fg"
    ∷ text "bg"
    ∷ text "kjob"
    ∷ text "jobs"
    ∷ text "overkill"
    ∷ text "setenv"
    ∷ text "unsetenv"
    ∷ text "cd"
    ∷ text "pwd"
    ∷ text "remindme"
    ∷ text "clock"
    ∷ text "echo"
    ∷ text "ls"
    ∷ text "pinfo"
    ∷ []

abbrev pub IsOutside : Text → Type 0
IsOutside name = Each (λ w. same_text name w ≡ false) inbuild_names

-- The action came to its end and the shell goes on.
abbrev pub returns : {A : Type 0} → Outcome A → Bool
returns (done a s) = true
returns (crashed s) = false
returns (gone s) = false
returns (waiting s) = false

pub IfDone-returns :
    {A : Type 0} (o : Outcome A) → IfDone (λ _ _. true ≡ false) o → returns o ≡ false
IfDone-returns (done a s) h = h
IfDone-returns (crashed s) h = refl
IfDone-returns (gone s) h = refl
IfDone-returns (waiting s) h = refl

sign_at-arg :
    (a : Option Text) (n : ℕ) (s : Shell) → s.list n ≡ a → IsPlain a → sign_at n s ≡ done 0 s
unfolding sign_at
sign_at-arg none n s e k = cc
sign_at-arg (some w) n s e k =
    rw
      (
        arg_is-some n w (text "<") s e,
        arg_is-some n w (text ">") s e,
        arg_is-some n w (text ">>") s e,
      )
      (rw k.0 (rw k.1 (rw k.2 refl)))

pub sign_at-plain : (n : ℕ) (s : Shell) → IsPlain (s.list n) → sign_at n s ≡ done 0 s
sign_at-plain n s h = sign_at-arg (s.list n) n s refl h

pub some_left : (len : ℕ) → (suc len == 0) ≡ false
some_left len = ground arith

one_less : (len : ℕ) → suc (suc len) - 1 ≡ suc len
one_less len = omega arith

pub same_words : {words left : ℕ} → words ≡ 0 + left → words ≡ left
same_words e = omega (arith, e)

pub no_further : (n : ℕ) → n ≡ n + 0
no_further n = omega arith

pub one_further : (n k : ℕ) → suc n + k ≡ n + suc k
one_further n k = omega arith

-- No child has ended whenever the shell looks.
abbrev pub IsQuiet : Os → Type 0
IsQuiet os =
    (calls : List Call) → ltb_ℤ (pos 0) (os.reply (waitpid_nohang (negsuc 0) ∷ calls)) ≡ false

module _ (os : Os) (rounds : ℕ) (home : Text) (shows : Show → ℕ → M Unit) where
  redirections-plain :
      (len left n : ℕ) (found : Bool) (s : Shell)
      → Each IsPlain (args_from n left s.list)
      → redirections os rounds home shows len left n found s ≡ done (some found) s
  unfolding redirections args_from
  redirections-plain len zero n found s h = refl
  redirections-plain len (suc left) n found s h =
      rw (sign_at-plain n s h.0) (redirections-plain len left (suc n) found s h.1)

  -- Words that are no redirections are passed over.
  pub redirections-skip :
      (len k left words n : ℕ) (found : Bool) (s : Shell)
      → words ≡ k + left
      → Each IsPlain (args_from n k s.list)
      → redirections os rounds home shows len words n found s
        ≡ redirections os rounds home shows len left (n + k) found s
  unfolding redirections args_from
  redirections-skip len zero left words n found s e h =
      ap (λ w. redirections os rounds home shows len w n found s) (same_words e)
      ∙ ap (λ m. redirections os rounds home shows len left m found s) (no_further n)
  redirections-skip len (suc k) left zero n found s e h = absurd (omega (arith, e))
  redirections-skip len (suc k) left (suc words) n found s e h = rw (sign_at-plain n s h.0) (
      redirections-skip len k left words (suc n) found s (omega (arith, e)) h.1
      ∙ ap (λ m. redirections os rounds home shows len left m found s) (one_further n k))

  -- A command without a redirection runs twice.
  pub chk_file-plain :
      (len : ℕ) (s : Shell)
      → Each IsPlain (args_from 0 len s.list)
      → chk_file os rounds home shows len s
        ≡ (execute_inbuild os rounds home shows len >> execute_inbuild os rounds home shows len) s
  unfolding chk_file run_redirected
  chk_file-plain len s h = rw (redirections-plain len len 0 false s h) refl

  run_named-outside :
      (len : ℕ) (name : Text)
      → IsOutside name
      → run_named os rounds home shows len name ≡ switch_fore_or_back_ground os rounds len
  unfolding run_named
  run_named-outside len name h =
      rw
        (
          h.0, h.1.0, h.1.1.0, h.1.1.1.0, h.1.1.1.1.0, h.1.1.1.1.1.0, h.1.1.1.1.1.1.0,
          h.1.1.1.1.1.1.1.0, h.1.1.1.1.1.1.1.1.0, h.1.1.1.1.1.1.1.1.1.0, h.1.1.1.1.1.1.1.1.1.1.0,
          h.1.1.1.1.1.1.1.1.1.1.1.0, h.1.1.1.1.1.1.1.1.1.1.1.1.0, h.1.1.1.1.1.1.1.1.1.1.1.1.1.0,
          h.1.1.1.1.1.1.1.1.1.1.1.1.1.1.0,
        )
        refl

  -- A command that the shell does not know, where no child has ended.
  execute_inbuild-outside :
      (len : ℕ) (name : Text) (s : Shell)
      → IsOutside name
      → IsQuiet os
      → s.list 0 ≡ some name
      → execute_inbuild os rounds home shows (suc len) s
        ≡ switch_fore_or_back_ground os rounds
            (suc len)
            (record s { calls = waitpid_nohang (negsuc 0) ∷ s.calls })
  unfolding execute_inbuild run_arg check_child call
  execute_inbuild-outside len name s h quiet first =
      rw (quiet s.calls, some_left len, first, run_named-outside (suc len) name h) refl

  -- The number of the child that the first run starts.
  abbrev pub child_of : List Call → ℤ
  child_of calls = os.reply (fork ∷ waitpid_nohang (negsuc 0) ∷ calls)

  -- The state behind the start of the child: the `&` is gone, and the child is noted as a job if its
  -- state can be read.
  abbrev pub started : ℕ → Text → Shell → Shell
  started len name s =
      let pid = child_of s.calls in
      let seen = read_stat pid ∷ fork ∷ waitpid_nohang (negsuc 0) ∷ s.calls in
      record s {
        list = λ j. if suc len == j then none else if suc len == j then none else s.list j;
        child_pid = pid;
        this_jobs = elim (os.letter seen) [
          | none ↦ s.this_jobs
          | some c ↦ add_job (status_of c) pid name s.this_jobs
        ];
        calls = seen;
      }

  note_job-started :
      (pid : ℤ) (c : Option ℕ) (name : Text) (s : Shell)
      → s.list 0 ≡ some name
      → note_job os pid c s
        ≡ done tt (record s {
          this_jobs = elim c [
            | none ↦ s.this_jobs
            | some d ↦ add_job (status_of d) pid name s.this_jobs
          ];
        })
  unfolding note_job enter_job
  note_job-started pid none name s first = refl
  note_job-started pid (some d) name s first =
      ap
        (λ (a : Option Text). elim a [
          | none ↦ crashed s
          | some n ↦ done tt (record s { this_jobs = add_job (status_of d) pid n s.this_jobs })
        ])
        first

  first_run :
      (len : ℕ) (name : Text) (s : Shell)
      → IsOutside name
      → IsQuiet os
      → eq_ℤ (child_of s.calls) (pos 0) ≡ false
      → s.list 0 ≡ some name
      → s.list (suc len) ≡ some (text "&")
      → execute_inbuild os rounds home shows (suc (suc len)) s ≡ done tt (started len name s)
  unfolding switch_fore_or_back_ground same_text back_ground_process call letter_of
  first_run len name s h quiet parent first last =
      let looked : Shell = record s { calls = waitpid_nohang (negsuc 0) ∷ s.calls } in
      let pid = child_of s.calls in
      let forked : Shell = record s {
        list = λ j. if suc len == j then none else if suc len == j then none else s.list j;
        child_pid = pid;
        calls = read_stat pid ∷ fork ∷ looked.calls;
      } in
      execute_inbuild-outside (suc len) name s h quiet first
      ∙ rw (one_less len, arg_is-some (suc len) (text "&") (text "&") looked last, parent)
          (note_job-started pid (os.letter forked.calls) name forked (rw (some_left len) first))

  -- A command with `&` as its last word and without redirections, whose name is not one of the shell's
  -- own, where `fork` does not make the shell the child and no child has ended: the shell starts its
  -- process, notes it as a job if its state can be read, looks for ended children once more, and dies
  -- on a null pointer.
  pub background_dies :
      (len : ℕ) (name : Text) (s : Shell)
      → IsOutside name
      → IsQuiet os
      → eq_ℤ (child_of s.calls) (pos 0) ≡ false
      → s.list 0 ≡ some name
      → s.list (suc len) ≡ some (text "&")
      → Each IsPlain (args_from 0 (suc (suc len)) s.list)
      → let t = started len name s in
        chk_file os rounds home shows (suc (suc len)) s
        ≡ crashed (record t { calls = waitpid_nohang (negsuc 0) ∷ t.calls })
  unfolding switch_fore_or_back_ground
  background_dies len name s h quiet parent first last plain =
      let t = started len name s in
      let looked : Shell = record t { calls = waitpid_nohang (negsuc 0) ∷ t.calls } in
      chk_file-plain (suc (suc len)) s plain
      ∙ rw
          (
            first_run len name s h quiet parent first last,
            execute_inbuild-outside (suc len) name t h quiet (rw (some_left len) first),
            one_less len,
            arg_is-none (suc len) (text "&") looked (ground arith),
          )
          refl
