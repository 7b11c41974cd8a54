-- ===== src/Shell/Restores/Actions.antt =====
-- Assignment3/wonderShell/wonderShell.c: the actions of a process leave a descriptor alone.
use osassignments.Common.{
  ℕ, zero, suc, ◌-◌, ◌≡◌, refl, Bool, true, false, Option, none, some, List, ◌∷◌, if◌then◌else◌,
  ◌==◌,
}
use osassignments.Common.Int.{ℤ, pos, negsuc, eq_ℤ, ltb_ℤ}
use osassignments.Shell.Text.{Text, text, same_text}
use osassignments.Shell.Jobs.{Job, add_job, delete_job, status_of}
use osassignments.Shell.Process.{
  M, Os, Shell, Call, ◌>>=◌, arg_is, back_ground_process, call, check_child, crashed, done,
  drop_job, enter_job, fore_ground_process, fork, letter_of, note_job, pure, read_stat, run_child,
  switch_fore_or_back_ground, wait, wait_until_ended, waitpid, waitpid_nohang,
}
use osassignments.Shell.Process.Laws.{IfDone, IfDone-follow, IfDone-if}
use osassignments.Shell.Restores.{Since, more, is_mild}

module _ (os : Os) (d : ℤ) (base : List Call) where
  -- The action leaves the descriptor alone.
  abbrev pub Keeps : {A : Type 0} → M A → Type 0
  Keeps m = (s : Shell) → Since os d base s.calls → IfDone (λ _ t. Since os d base t.calls) (m s)

  pub Keeps-bind :
      {A B : Type 0} (m : M A) (f : A → M B) → Keeps m → ((a : A) → Keeps (f a)) → Keeps (m >>= f)
  Keeps-bind m f h k s i = IfDone-follow _ _ (m s) f (h s i) (λ a t j. k a t j)

  pub Keeps-if :
      {A : Type 0} (b : Bool) (m k : M A) → Keeps m → Keeps k → Keeps (if b then m else k)
  Keeps-if true m k h g = h
  Keeps-if false m k h g = g

  pub Keeps-pure : {A : Type 0} (a : A) → Keeps (pure a)
  Keeps-pure a s i = i

  pub Keeps-call : (c : Call) → is_mild os d c ≡ true → Keeps (call os c)
  unfolding call
  Keeps-call c h s i = more c h i

  pub Keeps-arg_is : (i : ℕ) (word : Text) → Keeps (arg_is i word)
  unfolding arg_is
  Keeps-arg_is i word s k = go (s.list i)
    where
      go :
          (a : Option Text)
          → IfDone
              (λ _ t. Since os d base t.calls)
              (elim a [ none ↦ crashed s | some w ↦ done (same_text w word) s ])
      go none = tt
      go (some w) = k

  Keeps-drop_job : (a : ℤ) → Keeps (drop_job a)
  unfolding drop_job
  Keeps-drop_job a s i = go (delete_job a s.this_jobs)
    where
      go :
          (r : Option (List Job))
          → IfDone
              (λ _ t. Since os d base t.calls)
              (elim r [ none ↦ crashed s | some jobs ↦ done tt (record s { this_jobs = jobs }) ])
      go none = tt
      go (some jobs) = i

  Keeps-enter_job : (c : ℕ) (pid : ℤ) → Keeps (enter_job c pid)
  unfolding enter_job
  Keeps-enter_job c pid s i = go (s.list 0)
    where
      go :
          (r : Option Text)
          → IfDone
              (λ _ t. Since os d base t.calls)
              (elim r [
                | none ↦ crashed s
                | some name ↦
                    done tt (record s { this_jobs = add_job (status_of c) pid name s.this_jobs })
              ])
      go none = tt
      go (some name) = i

  pub Keeps-wait_until_ended : (rounds : ℕ) (pid : ℤ) → Keeps (wait_until_ended os rounds pid)
  unfolding wait_until_ended wait is_mild
  Keeps-wait_until_ended zero pid s i = tt
  Keeps-wait_until_ended (suc rounds) pid s i =
      let after = record s { calls = waitpid pid ∷ s.calls } in
      IfDone-if (λ _ t. Since os d base t.calls) (os.ended after.calls) (pure tt)
        (wait_until_ended os rounds pid) after (more (waitpid pid) refl i)
        (Keeps-wait_until_ended rounds pid after (more (waitpid pid) refl i))

  pub Keeps-check_child : Keeps (check_child os)
  unfolding check_child is_mild
  Keeps-check_child =
      Keeps-bind (call os (waitpid_nohang (negsuc 0))) _
        (Keeps-call (waitpid_nohang (negsuc 0)) refl)
        (λ a. Keeps-if (ltb_ℤ (pos 0) a) (drop_job a) (pure tt) (Keeps-drop_job a) (Keeps-pure tt))

  pub Keeps-run_child : Keeps (run_child os)
  unfolding run_child call
  Keeps-run_child s i = tt

  Keeps-fore_ground_process : (rounds len : ℕ) → Keeps (fore_ground_process os rounds len)
  unfolding fore_ground_process is_mild
  Keeps-fore_ground_process rounds len s i =
      Keeps-bind (call os fork) _ (Keeps-call fork refl)
        (λ pid t j.
          Keeps-if (eq_ℤ pid (pos 0)) (run_child os) _ Keeps-run_child
            (Keeps-if (ltb_ℤ pid (pos 0)) (pure tt) _ (Keeps-pure tt)
              (Keeps-wait_until_ended rounds pid))
            (record t { child_pid = pid }) j)
        (record s { list = λ j. if len == j then none else s.list j }) i

  Keeps-note_job : (pid : ℤ) (c : Option ℕ) → Keeps (note_job os pid c)
  unfolding note_job
  Keeps-note_job pid none s i = i
  Keeps-note_job pid (some c) s i = Keeps-enter_job c pid s i

  Keeps-back_ground_process : (len : ℕ) → Keeps (back_ground_process os len)
  unfolding back_ground_process letter_of is_mild
  Keeps-back_ground_process len s i =
      Keeps-bind (call os fork) _ (Keeps-call fork refl)
        (λ pid t j.
          Keeps-if (eq_ℤ pid (pos 0)) (run_child os) _ Keeps-run_child
            (λ u k.
              Keeps-note_job pid (os.letter (read_stat pid ∷ u.calls))
                (record u { calls = read_stat pid ∷ u.calls }) (more (read_stat pid) refl k))
            (record t { child_pid = pid }) j)
        (record s { list = λ j. if len == j then none else s.list j }) i

  pub Keeps-switch_fore_or_back_ground :
      (rounds len : ℕ) → Keeps (switch_fore_or_back_ground os rounds len)
  unfolding switch_fore_or_back_ground
  Keeps-switch_fore_or_back_ground rounds len =
      Keeps-bind (arg_is (len - 1) (text "&")) _ (Keeps-arg_is (len - 1) (text "&")) (λ back.
        Keeps-if back _ _
          (λ s i.
            Keeps-back_ground_process (len - 1)
              (record s { list = λ j. if (len - 1) == j then none else s.list j }) i)
          (Keeps-fore_ground_process rounds len))
