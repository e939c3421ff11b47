-- ===== src/Crash.antt =====
-- misc_crash.c as it is built for MIPS: the parameters, the registration of the signals, and the
-- room for the backtrace. The numbers of the signals, the name of the process and the results of
-- `open` are arguments; `malloc` is taken to give what it is asked for.
pub mod Output
pub mod Write
pub mod Register
pub mod Room
pub mod ProcName
pub mod Symbols
pub mod Signals
pub mod Dump
pub mod Debug
mod Tests
use libmisc.Base.{
  ℕ, zero, suc, Bool, true, false, Option, none, some, List, [], ◌∷◌, ◌++◌, ◌==◌, if◌then◌else◌,
}
use libmisc.Base.Int.{ℤ, pos, negsuc, minus_one, ltb_ℤ, eqb_ℤ}
use libmisc.Base.Text.{Text, codes, truncated}
use libmisc.Mipsbt.{PmapLine, mips_backtrace}

-- `mCrashParameters_t`; files are known by numbers.
pub record CrashParameters : Type 0 where
  pub filename : Option Text
  pub filep : Option ℕ
  pub fd : ℤ
  pub debug_level : ℤ
  pub max_stack_depth : ℕ
  pub default_backtrace_signal : ℤ
  pub use_backtrace_symbols : ℤ
  pub signals : List ℕ

abbrev pub default_stack_depth : ℕ
default_stack_depth = 10

abbrev pub debug_default : ℤ
debug_default = pos 5

-- The signals that the code names, by their numbers on the platform.
pub record SignalNumbers : Type 0 where
  pub sighup : ℕ
  pub sigill : ℕ
  pub sigfpe : ℕ
  pub sigbus : ℕ
  pub sigsegv : ℕ
  pub sigurg : ℕ
  pub sigxcpu : ℕ
  pub sigxfsz : ℕ
  pub sigusr2 : ℕ

-- The global variables: the parameters, the entries that `gbl_backtraceBuffer` has room for, and
-- the signals with `crash_handler` for an action, the latest first.
pub record Crash : Type 0 where
  pub gbl_params : CrashParameters
  pub backtrace_room : ℕ
  pub caught : List ℕ

-- The loop over `gbl_params.signals`, up to the first 0; `none` behind the end of the array.
unfoldable pub catch_signals : List ℕ → List ℕ → Option (List ℕ)
catch_signals [] caught = none
catch_signals (s ∷ rest) caught =
    let more = catch_signals rest (s ∷ caught) in if s == 0 then some caught else more

-- An `int` that is not specified gets its default.
abbrev pub or_default : ℤ → ℤ → ℤ
or_default x default = if eqb_ℤ x (pos 0) then default else x

-- `gbl_params` with the defaults.
unfoldable pub with_defaults : SignalNumbers → CrashParameters → CrashParameters
with_defaults sig p = record p {
  max_stack_depth = if p.max_stack_depth == 0 then default_stack_depth else p.max_stack_depth;
  default_backtrace_signal = or_default p.default_backtrace_signal (pos sig.sigusr2);
  debug_level = or_default p.debug_level debug_default;
}

-- `miscCrash_init`; `none` where a null pointer is read or an array is left.
unfoldable pub misc_crash_init : SignalNumbers → Option CrashParameters → Crash → Option (ℤ × Crash)
unfolding catch_signals with_defaults
misc_crash_init sig none c = some (minus_one, c)
misc_crash_init sig (some p) c = elim p.filename [
  | none ↦ none
  | some name ↦ elim (catch_signals p.signals c.caught) [
    | none ↦ none
    | some caught ↦ some (
      pos 0,
      record {
        gbl_params = with_defaults sig p;
        backtrace_room = p.max_stack_depth;
        caught = caught;
      },
    )
  ]
]

abbrev pub zeros : ℕ → List ℕ
zeros zero = []
zeros (suc n) = 0 ∷ zeros n

-- The signals that are caught.
abbrev pub crash_signals : SignalNumbers → List ℕ
crash_signals sig =
    sig.sighup ∷ sig.sigill ∷ sig.sigfpe ∷ sig.sigbus ∷ sig.sigsegv ∷ sig.sigurg ∷ sig.sigxcpu
    ∷ sig.sigxfsz ∷ []

-- `params.fd`, from the results of the two calls of `open` for a path.
unfoldable pub output_fd : Option (ℤ × ℤ) → ℤ
output_fd none = pos 0
output_fd (some (created, truncating)) = if ltb_ℤ created (pos 0) then truncating else created

-- The parameters that `miscCrash_register` sets up, with an array of MCRASH_MAX_NUM_SIGNALS signals;
-- `proc_name` is what `%s` prints for the name.
unfoldable pub register_parameters : SignalNumbers → Text → ℕ → Option (ℤ × ℤ) → CrashParameters
unfolding output_fd
register_parameters sig proc_name stdout opened = record {
  filename = some (truncated 64 (codes "mCrash." ++ proc_name ++ codes ".file"));
  filep = some stdout;
  fd = output_fd opened;
  debug_level = pos 0;
  max_stack_depth = 0;
  default_backtrace_signal = pos 0;
  use_backtrace_symbols = pos 0;
  signals = crash_signals sig ++ zeros 22;
}

-- `miscCrash_register`
unfoldable pub misc_crash_register :
    SignalNumbers → Text → ℕ → Option (ℤ × ℤ) → Crash → Option (ℤ × Crash)
unfolding misc_crash_init register_parameters
misc_crash_register sig proc_name stdout opened c =
    elim (misc_crash_init sig (some (register_parameters sig proc_name stdout opened)) c) [
      | none ↦ none
      | some (rc, c') ↦ some (if eqb_ℤ rc (pos 0) then pos 0 else minus_one, c')
    ]

-- `createGlobalBacktrace`: the entries that are written to `gbl_backtraceBuffer`.
unfoldable pub create_global_backtrace :
    List PmapLine → (ℕ → ℕ) → ℕ → ℕ → ℕ → ℕ → Crash → Option (List ℕ)
unfolding mips_backtrace
create_global_backtrace maps mem fuel pc ra sp c =
    mips_backtrace maps mem fuel c.gbl_params.max_stack_depth pc ra sp
