-- ===== src/CrashTest.antt =====
-- crash_test.c and crash_test_lib.c, the program that shows what the crash handler does: its actions
-- for signals, `miscCrash_register`, and a child that writes through NULL. The program starts with
-- the actions that it was given; `writable` says which addresses a process can write.
pub mod Settled
pub mod Child
mod Tests
use libmisc.Base.{ℕ, Bool, Option, none, some, List, [], ◌∷◌, if◌then◌else◌}
use libmisc.Base.Int.{ℤ, pos, ◌+ℤ◌}
use libmisc.Base.Text.{Text}
use libmisc.Crash.{CrashParameters, Crash, SignalNumbers, misc_crash_register}
use libmisc.Crash.Signals.{
  Action, Actions, ignored, crash_action, program_action, set_action, set_actions,
}

-- The signals that the program names, by their numbers on the platform.
pub record Signals : Type 0 where
  pub crash : SignalNumbers
  pub sigint : ℕ
  pub sigquit : ℕ
  pub sigtrap : ℕ
  pub sigabrt : ℕ
  pub sigemt : ℕ
  pub sigsys : ℕ
  pub sigpipe : ℕ
  pub sigalrm : ℕ
  pub sigterm : ℕ
  pub sigusr1 : ℕ
  pub sigchld : ℕ
  pub sigpwr : ℕ
  pub sigwinch : ℕ
  pub sigio : ℕ
  pub sigtstp : ℕ
  pub sigcont : ℕ
  pub sigttin : ℕ
  pub sigttou : ℕ
  pub sigvtalrm : ℕ
  pub sigprof : ℕ

-- The signals that `signalHandler` is set for, in the order of the calls.
abbrev pub handled_signals : Signals → List ℕ
handled_signals sig =
    sig.crash.sighup ∷ sig.sigint ∷ sig.sigquit ∷ sig.crash.sigill ∷ sig.sigtrap ∷ sig.sigabrt
    ∷ sig.sigemt ∷ sig.crash.sigfpe ∷ sig.crash.sigbus ∷ sig.crash.sigsegv ∷ sig.sigsys
    ∷ sig.sigpipe ∷ sig.sigalrm ∷ sig.sigterm ∷ sig.sigusr1 ∷ sig.crash.sigusr2 ∷ sig.sigchld
    ∷ sig.sigpwr ∷ sig.sigwinch ∷ sig.crash.sigurg ∷ sig.sigio ∷ sig.sigtstp ∷ sig.sigcont
    ∷ sig.sigttin ∷ sig.sigttou ∷ sig.sigvtalrm ∷ sig.sigprof ∷ sig.crash.sigxcpu
    ∷ sig.crash.sigxfsz ∷ []

-- The calls of `sigaction` and of `signal`.
unfoldable pub set_up : Signals → Actions → Actions
unfolding set_actions
set_up sig t =
    let handled = set_actions (handled_signals sig) program_action t in
    set_action sig.sigpipe ignored (set_action sig.sigint ignored handled)

-- The global variables of misc_crash.c before any call.
abbrev pub unset : Crash
unset = record {
  gbl_params = record {
    filename = none;
    filep = none;
    fd = pos 0;
    debug_level = pos 0;
    max_stack_depth = 0;
    default_backtrace_signal = pos 0;
    use_backtrace_symbols = pos 0;
    signals = [];
  };
  backtrace_room = 0;
  caught = [];
}

-- `main` up to the `fork`: the crash handler's variables and the actions. `proc_name` is the name
-- of the process, `opened` the results of the calls of `open` for "/dev/mtdblock5".
unfoldable pub main : Signals → Text → ℕ → ℤ × ℤ → Actions → Option (Crash × Actions)
unfolding set_up misc_crash_register
main sig proc_name stdout opened t =
    elim (misc_crash_register sig.crash proc_name stdout (some opened) unset) [
      | none ↦ none
      | some (rc, c) ↦ some (c, set_actions c.caught crash_action (set_up sig t))
    ]

-- How a process goes on: it has written a byte to an address, or gets a signal.
pub data Ending : Type 0 where
  wrote : ℕ → ℤ → Ending
  signalled : ℕ → Ending

module _ (writable : ℕ → Bool) (sigsegv : ℕ) where
  -- `lib_func_C`: `*p = i` with `p` NULL.
  unfoldable pub lib_func_c : ℤ → Ending
  lib_func_c i = if writable 0 then wrote 0 i else signalled sigsegv

  -- `lib_func_B`
  unfoldable pub lib_func_b : ℤ → Ending
  unfolding lib_func_c
  lib_func_b i = lib_func_c (i +ℤ pos 1)

  -- `lib_func_A`, the child: it passes 0, and increments its variable afterwards.
  unfoldable pub lib_func_a : Ending
  unfolding lib_func_b
  lib_func_a = lib_func_b (pos 0)
