-- ===== src/Crash/Debug.antt =====
-- What `DPRINTF` of misc_crash.h prints in `miscCrash_init`.
use libmisc.Base.{
  ℕ, suc, ◌<◌, ◌≡◌, refl, ap, ◌∙◌, Option, none, some, List, [], ◌∷◌, ◌++◌, ◌==◌, if◌then◌else◌,
  nonzero, All, Bool-cases, inl, inr,
}
use libmisc.Base.Int.{ℤ, pos, minus_one, leb_ℤ}
use libmisc.Base.Text.{Text, codes, decimal}
use libmisc.Base.Text.Format.{decimal_int}
use libmisc.Crash.{
  Crash, CrashParameters, SignalNumbers, misc_crash_init, with_defaults, or_default, debug_default,
}
use libmisc.Crash.Register.{caught_on, misc_crash_init-caught}

abbrev debug_very_verbose : ℤ
debug_very_verbose = pos 1

abbrev debug_error : ℤ
debug_error = pos 5

-- `DPRINTF`: prints at the level of the global parameters or above.
dprintf : ℤ → Crash → Text → Text
dprintf level c text = if leb_ℤ c.gbl_params.debug_level level then text else []

-- "   Catching signal[%d] %d\n"
catching : ℕ → ℕ → Text
unfolding decimal
catching index signal =
    codes "   Catching signal[" ++ decimal index ++ codes "] " ++ decimal signal ++ codes "\n"

-- "Init Complete ret=%d\n"
complete : ℤ → Text
unfolding decimal_int
complete ret = codes "Init Complete ret=" ++ decimal_int ret ++ codes "\n"

null_params : Text
null_params = codes "   Error:  Null Params!\n"

-- The prints of the loop over the signals, from an index on.
catch_prints : Crash → ℕ → List ℕ → Text
unfolding dprintf catching
catch_prints c index [] = []
catch_prints c index (s ∷ rest) =
    let more = catch_prints c (suc index) rest in
    if s == 0 then [] else dprintf debug_very_verbose c (catching index s) ++ more

-- What `miscCrash_init` prints in front of its end, from the parameters and the global variables.
body_prints : Option CrashParameters → Crash → Text
unfolding dprintf null_params catch_prints
body_prints none c = dprintf debug_error c null_params
body_prints (some p) c = catch_prints c 0 c.gbl_params.signals

-- `miscCrash_init` with what it prints in front of its result.
unfoldable pub misc_crash_init_prints :
    SignalNumbers → Option CrashParameters → Crash → Option (Text × ℤ × Crash)
unfolding misc_crash_init body_prints dprintf complete null_params
misc_crash_init_prints sig params c = elim (misc_crash_init sig params c) [
  | none ↦ none
  | some (ret, c') ↦
      some (body_prints params c' ++ dprintf debug_very_verbose c' (complete ret), ret, c')
]

-- A line for each of the signals.
catching_lines : ℕ → List ℕ → Text
catching_lines index [] = []
catching_lines index (s ∷ ss) = catching index s ++ catching_lines (suc index) ss

-- The loop prints a line for each signal in front of the 0, or nothing.
catch_prints-lines :
    (c : Crash) (index : ℕ) (ss rest : List ℕ)
    → All (λ s. 0 < s) ss
    → catch_prints c index (ss ++ 0 ∷ rest) ≡ dprintf debug_very_verbose c (catching_lines index ss)
unfolding catch_prints catching_lines dprintf
catch_prints-lines c index [] rest h =
    elim (Bool-cases (leb_ℤ c.gbl_params.debug_level debug_very_verbose)) [
      | inl loud ↦ rw loud refl
      | inr quiet ↦ rw quiet refl
    ]
catch_prints-lines c index (s ∷ ss) rest h =
    elim (Bool-cases (leb_ℤ c.gbl_params.debug_level debug_very_verbose)) [
      | inl loud ↦ rw (nonzero s h.0, catch_prints-lines c (suc index) ss rest h.1, loud) refl
      | inr quiet ↦ rw (nonzero s h.0, catch_prints-lines c (suc index) ss rest h.1, quiet) refl
    ]

-- Two prints at one level are one print.
dprintf-append :
    (level : ℤ) (c : Crash) (s t : Text)
    → dprintf level c s ++ dprintf level c t ≡ dprintf level c (s ++ t)
unfolding dprintf
dprintf-append level c s t = elim (Bool-cases (leb_ℤ c.gbl_params.debug_level level)) [
  | inl loud ↦ rw loud refl
  | inr quiet ↦ rw quiet refl
]

-- The prints, from the result.
misc_crash_init_prints-result :
    (sig : SignalNumbers) (params : Option CrashParameters) (c : Crash) {ret : ℤ} {c' : Crash}
    {text : Text}
    → misc_crash_init sig params c ≡ some (ret, c')
    → body_prints params c' ++ dprintf debug_very_verbose c' (complete ret) ≡ text
    → misc_crash_init_prints sig params c ≡ some (text, ret, c')
unfolding misc_crash_init_prints
misc_crash_init_prints-result sig params c result prints =
    rw (misc_crash_init_prints, result, prints) refl

-- `miscCrash_init` with a file name and an array of signals that ends with a 0, and the same again
-- without parameters. The first call prints a line for each of the signals and a last line with the
-- result 0 where the debug level, 5 if it is not specified, is 1 or less, and nothing otherwise; it
-- returns 0. The second one returns -1 and leaves the global variables; it prints the error where
-- the level is 5 or less, and a last line with the result -1 where it is 1 or less.
misc_crash_init_prints-again :
    (sig : SignalNumbers) (p : CrashParameters) (name : Text) (ss rest : List ℕ) (c : Crash)
    → All (λ s. 0 < s) ss
    → let p' = record p { filename = some name; signals = ss ++ 0 ∷ rest } in
      let level = or_default p.debug_level debug_default in
      (c' : Crash) × (misc_crash_init_prints sig (some p') c
        ≡ some (
          (if leb_ℤ level (pos 1) then catching_lines 0 ss ++ complete (pos 0) else []),
          pos 0,
          c',
        ))
      × (misc_crash_init_prints sig none c'
          ≡ some (
            (if leb_ℤ level (pos 5) then null_params else [])
                ++ (if leb_ℤ level (pos 1) then complete minus_one else []),
            minus_one,
            c',
          ))
unfolding misc_crash_init dprintf body_prints with_defaults
misc_crash_init_prints-again sig p name ss rest c h =
    let p' = record p { filename = some name; signals = ss ++ 0 ∷ rest } in
    let c' : Crash = record {
      gbl_params = with_defaults sig p';
      backtrace_room = p.max_stack_depth;
      caught = caught_on ss c.caught;
    } in
    (
      c',
      misc_crash_init_prints-result sig (some p') c (misc_crash_init-caught sig p name ss rest c h)
          (ap (λ t. t ++ dprintf debug_very_verbose c' (complete (pos 0)))
              (catch_prints-lines c' 0 ss rest h)
            ∙ dprintf-append debug_very_verbose c' (catching_lines 0 ss) (complete (pos 0))),
      misc_crash_init_prints-result sig none c' refl refl,
    )
