-- ===== src/Crash/Register.antt =====
-- What `miscCrash_init` and `miscCrash_register` set up.
use libmisc.Base.{
  ℕ, ◌<◌, ◌≡◌, refl, ap, Option, none, some, List, [], ◌∷◌, ◌++◌, nonzero, if◌then◌else◌, All,
}
use libmisc.Base.Int.{ℤ, pos, minus_one, eqb_ℤ}
use libmisc.Base.Text.{Text, codes, truncated}
use libmisc.Crash.{
  Crash, CrashParameters, SignalNumbers, catch_signals, misc_crash_init, misc_crash_register,
  with_defaults, crash_signals, register_parameters, zeros,
}

-- The signals caught one after another, on top of those of before.
unfoldable pub caught_on : List ℕ → List ℕ → List ℕ
caught_on [] caught = caught
caught_on (s ∷ ss) caught = caught_on ss (s ∷ caught)

catch_signals-caught_on :
    (ss rest caught : List ℕ)
    → All (λ s. 0 < s) ss
    → catch_signals (ss ++ 0 ∷ rest) caught ≡ some (caught_on ss caught)
unfolding catch_signals caught_on
catch_signals-caught_on [] rest caught h = refl
catch_signals-caught_on (s ∷ ss) rest caught h =
    rw (catch_signals, nonzero s h.0) (catch_signals-caught_on ss rest (s ∷ caught) h.1)

-- With a file name and an array of signals that ends with a 0, `miscCrash_init` returns 0, catches
-- the signals in front of the 0, and has room for as many entries as the caller asked for.
pub misc_crash_init-caught :
    (sig : SignalNumbers) (p : CrashParameters) (name : Text) (ss rest : List ℕ) (c : Crash)
    → All (λ s. 0 < s) ss
    → let p' = record p { filename = some name; signals = ss ++ 0 ∷ rest } in
      misc_crash_init sig (some p') c
      ≡ some (
        pos 0,
        record {
          gbl_params = with_defaults sig p';
          backtrace_room = p.max_stack_depth;
          caught = caught_on ss c.caught;
        },
      )
unfolding misc_crash_init
misc_crash_init-caught sig p name ss rest c h =
    rw (misc_crash_init, catch_signals-caught_on ss rest c.caught h) refl

-- The signals of the platform are numbers other than 0.
abbrev pub IsNumbered : SignalNumbers → Type 0
IsNumbered sig = All (λ s. 0 < s) (crash_signals sig)

-- Where the signal numbers are not 0, `miscCrash_register` returns 0 and catches its eight signals in
-- order, each once; the backtrace may go ten entries deep, but has room for none.
pub misc_crash_register-caught :
    (sig : SignalNumbers) (proc_name : Text) (stdout : ℕ) (opened : Option (ℤ × ℤ)) (c : Crash)
    → IsNumbered sig
    → (c' : Crash) × (misc_crash_register sig proc_name stdout opened c ≡ some (pos 0, c'))
      × (c'.caught ≡ caught_on (crash_signals sig) c.caught)
      × (c'.gbl_params.max_stack_depth ≡ 10)
      × (c'.backtrace_room ≡ 0)
unfolding misc_crash_register register_parameters with_defaults
misc_crash_register-caught sig proc_name stdout opened c h =
    let p = register_parameters sig proc_name stdout opened in
    (
      record {
        gbl_params = with_defaults sig p;
        backtrace_room = 0;
        caught = caught_on (crash_signals sig) c.caught;
      },
      ap
          (λ r. elim r as (λ _. Option (ℤ × Crash)) [
            | none ↦ none
            | some (rc, c') ↦ some (if eqb_ℤ rc (pos 0) then pos 0 else minus_one, c')
          ])
          (misc_crash_init-caught sig p
            (truncated 64 (codes "mCrash." ++ proc_name ++ codes ".file")) (crash_signals sig)
            (zeros 21) c h),
      refl,
      refl,
      refl,
    )
