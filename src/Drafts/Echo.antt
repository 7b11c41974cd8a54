-- ===== src/Drafts/Echo.antt =====
-- Assignment3/wonderShell/exp.c, exp1.c and wonderShell.c: what the three print for a redirected `echo`.
use osassignments.Common.{
  ℕ, zero, suc, ◌+◌, ◌-◌, ◌≡◌, refl, sym, ap, ◌∙◌, Bool, true, false, Option, some, List, [], ◌∷◌,
  ◌++◌, ◌==◌, Each, arith,
}
use osassignments.Common.Int.{ℤ, pos, negsuc, eq_ℤ, ltb_ℤ}
use osassignments.Shell.Text.{Text, text, same_text}
use osassignments.Shell.Inbuild.{args_from}
use osassignments.Shell.Process.{
  M, Os, Shell, Call, call, check_child, close, done, dup2, echoed, open_out, open_tty,
  waitpid_nohang,
}
use osassignments.Shell.Process.Laws.{arg_is-some}
use osassignments.Shell.Dispatch.{Show, echo_command, execute_inbuild, run_arg, run_named}
use osassignments.Shell.Redirect
use osassignments.Shell.Redirect.{redirections, sign_at}
use osassignments.Shell.Redirect.Laws.{
  IsPlain, no_further, one_further, redirections-skip, sign_at-plain, some_left,
}
use osassignments.Drafts.Scan.{nothing_found, scan, scan-plain}
use osassignments.Drafts.Exp
use osassignments.Drafts.Exp1

-- The command `echo words > file`, with so many words behind the name.
pub record IsEchoTo (count : ℕ) (file : Text) (s : Shell) : Type 0 where
  pub name : s.list 0 ≡ some (text "echo")
  pub words : Each IsPlain (args_from 0 (suc count) s.list)
  pub sign : s.list (suc count) ≡ some (text ">")
  pub target : s.list (suc (suc count)) ≡ some file
  pub plain_file : IsPlain (some file)

-- Files open, descriptors move, and no child has ended.
pub record IsGood (os : Os) : Type 0 where
  pub opens :
      (append : Bool) (name : Option Text) (calls : List Call)
      → ltb_ℤ (os.reply (open_out append name ∷ calls)) (pos 0) ≡ false
  pub moves :
      (target : ℤ) (calls : List Call)
      → eq_ℤ (os.reply (dup2 target (pos 1) ∷ calls)) (pos 1) ≡ true
  pub quiet :
      (calls : List Call) → ltb_ℤ (pos 0) (os.reply (waitpid_nohang (negsuc 0) ∷ calls)) ≡ false

-- The sign `>`.
sign_at-out : (n : ℕ) (s : Shell) → s.list n ≡ some (text ">") → sign_at n s ≡ done 2 s
unfolding sign_at same_text
sign_at-out n s e =
    rw
      (
        arg_is-some n (text ">") (text "<") s e,
        arg_is-some n (text ">") (text ">") s e,
        arg_is-some n (text ">") (text ">>") s e,
      )
      refl

last_word : (n : ℕ) → (suc n == suc (suc n)) ≡ false
last_word n = ground arith

from_zero : (n : ℕ) → 0 + n ≡ n
from_zero n = omega arith

one_less : (n : ℕ) → suc n - 1 ≡ n
one_less n = omega arith

two_less : (n : ℕ) → suc (suc n) - 2 ≡ n
two_less n = omega arith

args_from-last_two :
    (i count : ℕ) (list : ℕ → Option Text)
    → args_from i (suc (suc count)) list
      ≡ args_from i count list ++ list (i + count) ∷ list (suc (i + count)) ∷ []
unfolding args_from
args_from-last_two i zero list = rw (sym (no_further i)) refl
args_from-last_two i (suc count) list =
    rw (args_from-last_two (suc i) count list, one_further i count) refl

one_more : (n : ℕ) → 1 + n ≡ suc n
one_more n = omega arith

module _ (os : Os) (rounds : ℕ) (home : Text) (shows : Show → ℕ → M Unit) where
  -- The look for ended children, and what is printed.
  abbrev pub printed : List (Option Text) → List Call → List Call
  printed args calls = echoed args ∷ waitpid_nohang (negsuc 0) ∷ calls

  echo-once :
      (len : ℕ) (s : Shell)
      → s.list 0 ≡ some (text "echo")
      → IsGood os
      → execute_inbuild os rounds home shows (suc len) s
        ≡ done tt (record s { calls = printed (args_from 1 len s.list) s.calls })
  unfolding execute_inbuild check_child call run_arg run_named same_text echo_command
  echo-once len s name good = rw (good.quiet s.calls, some_left len, name, one_less len) refl

  -- What both kinds of `outputFileAt` do first.
  abbrev pub moved : Text → List Call → List Call
  moved file calls =
      let opened = open_out false (some file) ∷ calls in dup2 (os.reply opened) (pos 1) ∷ opened

  abbrev pub fd_of : Text → List Call → ℤ
  fd_of file calls = os.reply (open_out false (some file) ∷ calls)

  -- The output to the file, and the terminal behind it.
  abbrev pub to_file : List (Option Text) → Text → List Call → List Call
  to_file args file calls = open_tty ∷ close (fd_of file calls) ∷ printed args (moved file calls)

  module _ {count : ℕ} {file : Text} {s : Shell} (e : IsEchoTo count file s)
      (good : IsGood os) where
    output-echo :
        Redirect.output_file_at os rounds home shows (suc (suc (suc count))) (suc count) false s
        ≡ done tt (record s { calls = to_file (args_from 1 count s.list) file s.calls })
    unfolding Redirect.output_file_at Redirect.write_to call
    output-echo =
        let there = record s { calls = moved file s.calls } in
        rw
          (
            e.target,
            good.opens false (some file) s.calls,
            good.moves (fd_of file s.calls) (open_out false (some file) ∷ s.calls),
            two_less (suc count),
            echo-once count there e.name good,
          )
          refl

    output-only :
        Exp.output_file_at os rounds home shows (suc count) false s
        ≡ done tt (record s { calls = close (fd_of file s.calls) ∷ moved file s.calls })
    unfolding Exp.output_file_at call
    output-only =
        rw
          (
            e.target,
            good.opens false (some file) s.calls,
            good.moves (fd_of file s.calls) (open_out false (some file) ∷ s.calls),
          )
          refl

    -- The word behind the sign.
    sign_at-file :
        (calls : List Call)
        → sign_at (suc (suc count)) (record s { calls = calls })
          ≡ done 0 (record s { calls = calls })
    sign_at-file calls =
        sign_at-plain (suc (suc count)) (record s { calls = calls }) (rw e.target e.plain_file)

    -- The loop of `chkFile` up to its end, where the output is moved by `output`.
    scan-echo :
        (input : ℕ → M Unit) (output : ℕ → Bool → M Unit) (calls : List Call)
        → output (suc count) false s ≡ done tt (record s { calls = calls })
        → scan input output (suc (suc (suc count))) (suc (suc (suc count))) 0 nothing_found s
          ≡ done
              (some (record { in_redirected = false; redirected = true }))
              (record s { calls = calls })
    unfolding scan
    scan-echo input output calls out =
        scan-plain input output (suc (suc (suc count))) (suc count) 2 (suc (suc (suc count))) 0
          nothing_found s (omega arith) e.words
        ∙ ap (λ n. scan input output (suc (suc (suc count))) 2 n nothing_found s)
            (from_zero (suc count))
        ∙ rw (sign_at-out (suc count) s e.sign, last_word (suc count), out, sign_at-file calls) refl

    redirections-echo :
        (calls : List Call)
        → Redirect.output_file_at os rounds home shows (suc (suc (suc count))) (suc count) false s
          ≡ done tt (record s { calls = calls })
        → redirections os rounds home shows
            (suc (suc (suc count)))
            (suc (suc (suc count)))
            0
            false
            s
          ≡ done (some true) (record s { calls = calls })
    unfolding redirections
    redirections-echo calls out =
        redirections-skip os rounds home shows (suc (suc (suc count))) (suc count) 2
          (suc (suc (suc count))) 0 false s (omega arith) e.words
        ∙ ap (λ n. redirections os rounds home shows (suc (suc (suc count))) 2 n false s)
            (from_zero (suc count))
        ∙ rw (sign_at-out (suc count) s e.sign, last_word (suc count), out, sign_at-file calls) refl

    -- All words of the command behind its name.
    abbrev pub whole : List (Option Text)
    whole = args_from 1 count s.list ++ some (text ">") ∷ some file ∷ []

    whole_lem : args_from 1 (suc (suc count)) s.list ≡ whole
    whole_lem = args_from-last_two 1 count s.list ∙ rw (one_more count, e.sign, e.target) refl

    -- For `echo words > file` exp1.c prints the words to the file. exp.c prints them to the file with the
    -- sign and the name of the file behind them. wonderShell.c prints the words to the file, and then
    -- words, sign and name on the terminal.
    pub echo_redirected :
        let len = suc (suc (suc count)) in
        let args = args_from 1 count s.list in
        (Exp1.chk_file os rounds home shows len s
          ≡ done tt (record s { calls = to_file args file s.calls }))
        × (Exp.chk_file os rounds home shows len s
            ≡ done tt (record s {
              calls = open_tty ∷ printed whole (close (fd_of file s.calls) ∷ moved file s.calls);
            }))
        × (Redirect.chk_file os rounds home shows len s
            ≡ done tt (record s { calls = printed whole (to_file args file s.calls) }))
    unfolding Exp1.chk_file Exp.chk_file Exp1.run_found Exp.run_found call Redirect.chk_file
        Redirect.run_redirected
    echo_redirected =
        let len = suc (suc (suc count)) in
        let args = args_from 1 count s.list in
        let then_moved = close (fd_of file s.calls) ∷ moved file s.calls in
        (
          rw
              (scan-echo (Exp1.input_file_from os rounds home shows len)
                (Redirect.output_file_at os rounds home shows len) (to_file args file s.calls)
                output-echo)
              refl,
          rw
              (
                scan-echo (Redirect.input_file_from os rounds home shows len)
                    (Exp.output_file_at os rounds home shows) then_moved output-only,
                echo-once (suc (suc count)) (record s { calls = then_moved }) e.name good,
                whole_lem,
              )
              refl,
          rw
              (
                redirections-echo (to_file args file s.calls) output-echo,
                echo-once (suc (suc count)) (record s { calls = to_file args file s.calls }) e.name
                    good,
                whole_lem,
              )
              refl,
        )
