-- ===== src/Shell/Restores/Commands.antt =====
-- Assignment3/wonderShell/wonderShell.c: no command touches a descriptor that it has not opened, but 0
-- and 1.
use Prim.Native.String.{String}
use osassignments.Common.{
  ℕ, ◌-◌, refl, Bool, true, false, Option, none, some, List, [], ◌∷◌, if◌then◌else◌, ◌==◌, ltb,
  ◌||◌,
}
use osassignments.Common.Int.{ℤ, negsuc, eq_ℤ}
use osassignments.Shell.Text.{Text, text, same_text}
use osassignments.Shell.Number.{strtol}
use osassignments.Shell.Jobs.{Job, get_job_pid, is_job_running, search_job, jobs_pressed}
use osassignments.Shell.Process.{
  M, Os, Call, call, chdir, check_child, crashed, done, echoed, getcwd, kill, listed, number, pure,
  setenv, sigcont, sigquit, sigttin, time, unsetenv,
}
use osassignments.Shell.Process.Laws.{IfDone}
use osassignments.Shell.Inbuild.{
  fg_at, bg_found, bg_pid, bg_at, kjob_at, args_from, words_of, bg_pressed, fg_pressed,
  kjob_pressed, over_kill, set_env_pressed, un_set_env_pressed,
}
use osassignments.Shell.Dispatch.{
  cd_at, set_alarm_at, Show, ls, clock, pinfo, cd_command, echo_command, execute_inbuild,
  jobs_command, over_kill_pressed, pwd_command, remindme_command, run_arg, run_named,
}
use osassignments.Shell.Restores.{Since, more, is_mild}
use osassignments.Shell.Restores.Actions.{
  Keeps, Keeps-bind, Keeps-if, Keeps-pure, Keeps-wait_until_ended, Keeps-check_child,
  Keeps-switch_fore_or_back_ground,
}

module _ (os : Os) (d : ℤ) (base : List Call) where
  module _ (rounds : ℕ) where
    Keeps-fg_pressed : Keeps os d base (fg_pressed os rounds)
    unfolding fg_pressed fg_at
    Keeps-fg_pressed s i = go (s.list 1)
      where
        go : (a : Option Text) → IfDone (λ _ t. Since os d base t.calls) (fg_at os rounds a s)
        go none = i
        go (some t) = Keeps-wait_until_ended os d base rounds (strtol t) s i

    Keeps-bg_found : (pid : ℤ) → Keeps os d base (bg_found os rounds pid)
    unfolding bg_found call is_mild
    Keeps-bg_found pid s i =
        Keeps-if os d base (is_job_running pid s.this_jobs) (pure tt) _ (Keeps-pure os d base tt)
          (λ t k. more (kill pid sigcont) refl (more (kill pid sigttin) refl k)) s i

    Keeps-bg_pid : (r : Option ℤ) → Keeps os d base (bg_pid os rounds r)
    unfolding bg_pid
    Keeps-bg_pid none s i = tt
    Keeps-bg_pid (some pid) s i =
        Keeps-if os d base (eq_ℤ pid (negsuc 0)) (pure tt) _ (Keeps-pure os d base tt)
          (Keeps-if os d base (search_job pid s.this_jobs) (bg_found os rounds pid) (pure tt)
            (Keeps-bg_found pid) (Keeps-pure os d base tt))
          s i

    Keeps-bg_at : (a : Option Text) → Keeps os d base (bg_at os rounds a)
    unfolding bg_at
    Keeps-bg_at none s i = tt
    Keeps-bg_at (some t) s i = Keeps-bg_pid (get_job_pid (strtol t) s.this_jobs) s i

    Keeps-bg_pressed : Keeps os d base (bg_pressed os rounds)
    unfolding bg_pressed
    Keeps-bg_pressed s i = Keeps-bg_at (s.list 1) s i

    Keeps-kjob_at : (a b : Option Text) → Keeps os d base (kjob_at os rounds a b)
    unfolding kjob_at call is_mild
    Keeps-kjob_at (some job) (some sig) s i = more (kill (strtol job) (number (strtol sig))) refl i
    Keeps-kjob_at (some job) none s i = i
    Keeps-kjob_at none b s i = i

    Keeps-kjob_pressed : Keeps os d base (kjob_pressed os rounds)
    unfolding kjob_pressed
    Keeps-kjob_pressed s i = Keeps-kjob_at (s.list 1) (s.list 2) s i

    Keeps-over_kill : (jobs : List Job) → Keeps os d base (over_kill os rounds jobs)
    unfolding over_kill call is_mild
    Keeps-over_kill [] s i = i
    Keeps-over_kill (curr ∷ jobs) s i =
        Keeps-over_kill jobs (record s { calls = kill curr.pid sigquit ∷ s.calls })
          (more (kill curr.pid sigquit) refl i)

    Keeps-set_env_pressed : (len : ℕ) → Keeps os d base (set_env_pressed os rounds len)
    unfolding set_env_pressed call is_mild
    Keeps-set_env_pressed len =
        Keeps-if os d base (len == 2) _ _ (λ s i. more (setenv (s.list 1) (some [])) refl i)
          (λ s i. more (setenv (s.list 1) (s.list 2)) refl i)

    Keeps-un_set_env_pressed : (len : ℕ) → Keeps os d base (un_set_env_pressed os rounds len)
    unfolding un_set_env_pressed call is_mild
    Keeps-un_set_env_pressed len =
        Keeps-if os d base (len == 2) _ _ (λ s i. more (unsetenv (s.list 1)) refl i)
          (Keeps-pure os d base tt)

  module _ (rounds : ℕ) (home : Text) (shows : Show → ℕ → M Unit)
      (shown : (show : Show) (len : ℕ) → Keeps os d base (shows show len)) where
    Keeps-cd_command : Keeps os d base (cd_command os rounds home shows)
    unfolding cd_command cd_at call is_mild
    Keeps-cd_command s i = go (s.list 1)
      where
        go :
            (a : Option Text)
            → IfDone (λ _ t. Since os d base t.calls) (cd_at os rounds home shows a s)
        go none = tt
        go (some path) = more (chdir _) refl i

    Keeps-set_alarm_at :
        (len : ℕ) (now : ℤ) (words : Option (List Text))
        → Keeps os d base (set_alarm_at os rounds home shows len now words)
    unfolding set_alarm_at
    Keeps-set_alarm_at len now none s i = go (ltb len 3 || s.alarm.time_vld)
      where
        go :
            (b : Bool)
            → IfDone (λ _ t. Since os d base t.calls) (if b then done tt s else crashed s)
        go true = i
        go false = tt
    Keeps-set_alarm_at len now (some words) s i = i

    Keeps-run_named :
        (len : ℕ) (name : Text) → Keeps os d base (run_named os rounds home shows len name)
    unfolding run_named jobs_command over_kill_pressed pwd_command remindme_command echo_command
        call is_mild
    Keeps-run_named len name =
        let is : String → Bool = λ word. same_text name (text word) in
        Keeps-if os d base (is "clear") _ _ (Keeps-pure os d base tt) (
          Keeps-if os d base (is "fg") _ _ (Keeps-fg_pressed rounds) (
            Keeps-if os d base (is "bg") _ _ (Keeps-bg_pressed rounds) (
              Keeps-if os d base (is "kjob") _ _ (Keeps-kjob_pressed rounds) (
                Keeps-if os d base (is "jobs") _ _
                  (λ s i. more (listed (jobs_pressed s.this_jobs)) refl i)
                  (Keeps-if os d base (is "overkill") _ _
                    (λ s i. Keeps-over_kill rounds s.this_jobs s i)
                    (Keeps-if os d base (is "setenv") _ _ (Keeps-set_env_pressed rounds len) (
                      Keeps-if os d base (is "unsetenv") _ _ (Keeps-un_set_env_pressed rounds len) (
                        Keeps-if os d base (is "cd") _ _ Keeps-cd_command (
                          Keeps-if os d base (is "pwd") _ _ (λ s i. more getcwd refl i)
                            (Keeps-if os d base (is "remindme") _ _
                              (λ s i.
                                Keeps-set_alarm_at len (os.reply (time ∷ s.calls))
                                  (words_of (args_from 0 len s.list))
                                  (record s { calls = time ∷ s.calls }) (more time refl i))
                              (Keeps-if os d base (is "clock") _ _ (shown clock len) (
                                Keeps-if os d base (is "echo") _ _
                                  (λ s i. more (echoed (args_from 1 (len - 1) s.list)) refl i)
                                  (Keeps-if os d base (is "ls") _ _ (shown ls len) (
                                    Keeps-if os d base (is "pinfo") _ _ (shown pinfo len) (
                                      Keeps-switch_fore_or_back_ground os d base rounds
                                        len)))))))))))))))

    Keeps-run_arg :
        (len : ℕ) (name : Option Text) → Keeps os d base (run_arg os rounds home shows len name)
    unfolding run_arg
    Keeps-run_arg len none s i = tt
    Keeps-run_arg len (some name) s i = Keeps-run_named len name s i

    pub Keeps-execute_inbuild :
        (len : ℕ) → Keeps os d base (execute_inbuild os rounds home shows len)
    unfolding execute_inbuild
    Keeps-execute_inbuild len =
        Keeps-bind os d base (check_child os) _ (Keeps-check_child os d base) (λ _.
          Keeps-if os d base (len == 0) (pure tt) _ (Keeps-pure os d base tt)
            (λ s i. Keeps-run_arg len (s.list 0) s i))
