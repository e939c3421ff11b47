-- ===== src/CrashTest/Settled.antt =====
-- The actions that `main` of crash_test.c settles.
use libmisc.Base.{
  ℕ, ◌≡◌, refl, ap, ◌∙◌, Bool, true, false, ◌||◌, some, List, [], ◌∷◌, ◌==◌, if◌then◌else◌, arith,
}
use libmisc.Base.Int.{ℤ}
use libmisc.Base.Text.{Text}
use libmisc.Crash.{Crash, crash_signals}
use libmisc.Crash.Register.{caught_on, IsNumbered, misc_crash_register-caught}
use libmisc.Crash.Signals.{
  Action, Actions, ignored, crash_action, program_action, set_action, set_actions, among,
  set_actions-among,
}
use libmisc.CrashTest.{Signals, handled_signals, set_up, unset, main}

-- What was caught on top of others is among them, in any order.
among-caught_on :
    (s : ℕ) (ns caught : List ℕ) → among s (caught_on ns caught) ≡ (among s ns || among s caught)
unfolding caught_on among
among-caught_on s [] caught = refl
among-caught_on s (n ∷ ns) caught = ground (arith, among-caught_on s ns (n ∷ caught))

-- The action for each signal: those of `miscCrash_register` end in `crash_handler`; of the others, SIGINT and
-- SIGPIPE are ignored, those in the list of `main` call `signalHandler`, and the rest keep theirs.
unfoldable pub settled : Signals → Actions → Actions
settled sig t s =
    if among s (crash_signals sig.crash)
    then crash_action
    else if s == sig.sigint || s == sig.sigpipe
    then ignored
    else if among s (handled_signals sig)
    then program_action
    else t s

set_up-settled :
    (sig : Signals) (t : Actions) (s : ℕ)
    → (if among s (crash_signals sig.crash) || among s [] then crash_action else set_up sig t s)
      ≡ settled sig t s
unfolding set_up set_action settled among
set_up-settled sig t s =
    rw (set_up, set_actions-among (handled_signals sig) program_action t s)
      (go (among s (crash_signals sig.crash)) (s == sig.sigint) (s == sig.sigpipe)
        (if among s (handled_signals sig) then program_action else t s))
  where
    go :
        (caught interrupt pipe : Bool) (a : Action)
        → (if caught || among s []
            then crash_action
            else if pipe
            then ignored
            else if interrupt
            then ignored
            else a)
          ≡ (if caught then crash_action else if interrupt || pipe then ignored else a)
    go true interrupt pipe a = refl
    go false true true a = refl
    go false true false a = refl
    go false false true a = refl
    go false false false a = refl

-- Behind `main` of crash_test.c, which does not fail where the signal numbers are not 0.
pub record Started (sig : Signals) (t : Actions) (c : Crash) (u : Actions) : Type 0 where
  pub depth : c.gbl_params.max_stack_depth ≡ 10
  pub room : c.backtrace_room ≡ 0
  pub actions : (s : ℕ) → u s ≡ settled sig t s

pub main-Started :
    (sig : Signals) (proc_name : Text) (stdout : ℕ) (opened : ℤ × ℤ) (t : Actions)
    → IsNumbered sig.crash
    → (c : Crash) × (u : Actions) × (main sig proc_name stdout opened t ≡ some (c, u))
      × Started sig t c u
unfolding main set_up settled
main-Started sig proc_name stdout opened t h =
    let r = misc_crash_register-caught sig.crash proc_name stdout (some opened) unset h in
    (
      r.0,
      set_actions r.0.caught crash_action (set_up sig t),
      rw (main, r.1) refl,
      record {
        depth = r.3;
        room = r.4;
        actions = λ s.
            set_actions-among r.0.caught crash_action (set_up sig t) s
            ∙ ap (λ l. if among s l then crash_action else set_up sig t s) r.2
            ∙ ap (λ b. if b then crash_action else set_up sig t s)
                (among-caught_on s (crash_signals sig.crash) [])
            ∙ set_up-settled sig t s;
      },
    )
