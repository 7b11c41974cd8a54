-- ===== src/Shell/Restores/Redirects.antt =====
-- Assignment3/wonderShell/wonderShell.c: redirections touch no descriptor that was in use, but 0 and 1.
use osassignments.Common.{
  ℕ, zero, suc, ◌-◌, ◌≡◌, refl, Bool, true, false, Option, none, some, List, ◌∷◌, if◌then◌else◌,
  ◌==◌,
}
use osassignments.Common.Int.{ℤ, pos, eq_ℤ, ltb_ℤ}
use osassignments.Shell.Text.{Text, text}
use osassignments.Shell.Process.{
  M, Os, Call, arg_is, call, close, dup2, open_in, open_out, open_tty, pure,
}
use osassignments.Shell.Dispatch.{Show, execute_inbuild}
use osassignments.Shell.Redirect.{
  chk_file, input_file_from, output_file_at, redirections, run_redirected, sign_at, write_to,
}
use osassignments.Shell.Restores.{more, is_mild, IsTaken}
use osassignments.Shell.Restores.Actions.{
  Keeps, Keeps-bind, Keeps-if, Keeps-pure, Keeps-call, Keeps-arg_is,
}
use osassignments.Shell.Restores.Commands.{Keeps-execute_inbuild}

-- A descriptor above 0 and 1.
pub record IsHigh (d : ℤ) : Type 0 where
  pub not_in : eq_ℤ d (pos 0) ≡ false
  pub not_out : eq_ℤ d (pos 1) ≡ false

module _ (os : Os) (d : ℤ) (base : List Call) (taken : IsTaken os d base) (high : IsHigh d)
    (rounds : ℕ) (home : Text) (shows : Show → ℕ → M Unit)
    (shown : (show : Show) (len : ℕ) → Keeps os d base (shows show len)) where
  -- Another descriptor is closed or moved to.
  pub close-is_mild : (e : ℤ) → eq_ℤ d e ≡ false → is_mild os d (close e) ≡ true
  unfolding is_mild
  close-is_mild e h = rw h refl

  pub dup2-is_mild : (from to : ℤ) → eq_ℤ d to ≡ false → is_mild os d (dup2 from to) ≡ true
  unfolding is_mild
  dup2-is_mild from to h = rw h refl

  open_tty-is_mild : is_mild os d open_tty ≡ true
  unfolding is_mild
  open_tty-is_mild = rw high.not_out refl

  run_inbuild : (len : ℕ) → Keeps os d base (execute_inbuild os rounds home shows len)
  run_inbuild len = Keeps-execute_inbuild os d base rounds home shows shown len

  Keeps-write_to :
      (len : ℕ) (target : ℤ)
      → eq_ℤ d target ≡ false
      → Keeps os d base (write_to os rounds home shows len target)
  unfolding write_to
  Keeps-write_to len target other =
      Keeps-bind os d base (call os (dup2 target (pos 1))) _
        (Keeps-call os d base (dup2 target (pos 1)) (dup2-is_mild target (pos 1) high.not_out))
        (λ moved.
          Keeps-if os d base (eq_ℤ moved (pos 1)) _ (pure tt)
            (Keeps-bind os d base _ (λ _. pure tt)
              (Keeps-bind os d base _ (λ _. call os open_tty)
                (Keeps-bind os d base (execute_inbuild os rounds home shows len)
                  (λ _. call os (close target)) (run_inbuild len)
                  (λ _. Keeps-call os d base (close target) (close-is_mild target other)))
                (λ _. Keeps-call os d base open_tty open_tty-is_mild))
              (λ _. Keeps-pure os d base tt))
            (Keeps-pure os d base tt))

  Keeps-output_file_at :
      (len n : ℕ) (append : Bool)
      → Keeps os d base (output_file_at os rounds home shows len n append)
  unfolding output_file_at call is_mild
  Keeps-output_file_at len n append s i =
      let there = open_out append (s.list (suc n)) ∷ s.calls in
      Keeps-if os d base (ltb_ℤ (os.reply there) (pos 0)) (pure tt) _ (Keeps-pure os d base tt)
        (Keeps-write_to (len - 2) (os.reply there)
          (taken.not_out append (s.list (suc n)) s.calls i))
        (record s { calls = there }) (more (open_out append (s.list (suc n))) refl i)

  Keeps-input_file_from : (len n : ℕ) → Keeps os d base (input_file_from os rounds home shows len n)
  unfolding input_file_from call is_mild
  Keeps-input_file_from len n =
      Keeps-if os d base (suc n == len) (pure tt) _ (Keeps-pure os d base tt) (λ s i.
        let name = (record s { list = λ j. if n == j then none else s.list j }).list (suc n) in
        let target = os.reply (open_in name ∷ s.calls) in
        let other = taken.not_in name s.calls i in
        more (close target) (close-is_mild target other) (
          more (dup2 target (pos 0)) (dup2-is_mild target (pos 0) high.not_in) (
            more (close (pos 0)) (close-is_mild (pos 0) high.not_in) (more (open_in name) refl i))))

  Keeps-sign_at : (n : ℕ) → Keeps os d base (sign_at n)
  unfolding sign_at
  Keeps-sign_at n =
      Keeps-bind os d base (arg_is n (text "<")) _ (Keeps-arg_is os d base n (text "<")) (λ input.
        Keeps-bind os d base (arg_is n (text ">")) _ (Keeps-arg_is os d base n (text ">"))
          (λ output.
            Keeps-bind os d base (arg_is n (text ">>")) _ (Keeps-arg_is os d base n (text ">>"))
              (λ add s i. i)))

  Keeps-redirections :
      (len left n : ℕ) (redirected : Bool)
      → Keeps os d base (redirections os rounds home shows len left n redirected)
  unfolding redirections
  Keeps-redirections len zero n redirected s i = i
  Keeps-redirections len (suc left) n redirected s i =
      Keeps-bind os d base (sign_at n) _ (Keeps-sign_at n)
        (λ sign.
          Keeps-if os d base (sign == 0) _ _ (Keeps-redirections len left (suc n) redirected) (
            Keeps-if os d base (sign == 1) _ _
              (Keeps-bind os d base (input_file_from os rounds home shows len n) _
                (Keeps-input_file_from len n) (λ _. Keeps-redirections len left (suc n) true))
              (Keeps-if os d base (suc n == len) (pure none) _ (λ t k. k)
                (Keeps-bind os d base (output_file_at os rounds home shows len n (sign == 3)) _
                  (Keeps-output_file_at len n (sign == 3))
                  (λ _. Keeps-redirections len left (suc n) true)))))
        s i

  Keeps-run_redirected :
      (len : ℕ) (found : Option Bool)
      → Keeps os d base (run_redirected os rounds home shows len found)
  unfolding run_redirected
  Keeps-run_redirected len none s i = i
  Keeps-run_redirected len (some true) s i = run_inbuild len s i
  Keeps-run_redirected len (some false) s i =
      Keeps-bind os d base (execute_inbuild os rounds home shows len) _ (run_inbuild len)
        (λ _. run_inbuild len) s i

  pub Keeps-chk_file : (len : ℕ) → Keeps os d base (chk_file os rounds home shows len)
  unfolding chk_file
  Keeps-chk_file len =
      Keeps-bind os d base (redirections os rounds home shows len len 0 false) _
        (Keeps-redirections len len 0 false) (Keeps-run_redirected len)
