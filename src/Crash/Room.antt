-- ===== src/Crash/Room.antt =====
-- The room that the backtrace of the crash handler has.
use mathlib.Core.Path.{subst}
use libmisc.Base.{
  ℕ, ◌*◌, ◌^◌, ◌≤◌, ◌<◌, ◌≡◌, refl, sym, ap, inl, inr, ◌⊎◌, true, false, Option, some, List, [],
  ◌∷◌, ◌++◌, nonzero, All, arith, length, length-append,
}
use libmisc.Base.Int.{ℤ, pos}
use libmisc.Base.Text.{Text}
use libmisc.Mipsbt.{PmapLine, regular_addr, mips_backtrace}
use libmisc.Mipsbt.Bounds.{IsSound}
use libmisc.Mipsbt.Halt.{mips_backtrace-IsSound}
use libmisc.Crash.{
  Crash, CrashParameters, SignalNumbers, misc_crash_init, misc_crash_register, with_defaults,
  create_global_backtrace,
}
use libmisc.Crash.Register.{
  misc_crash_init-caught, misc_crash_register-caught, IsNumbered, caught_on,
}

-- A buffer that the backtrace fills is not empty.
pub IsSound-nonempty :
    (maps : List PmapLine) (size : ℕ) (buffer : List ℕ)
    → IsSound maps size buffer
    → 0 < length buffer
IsSound-nonempty maps size buffer h =
    omega (arith, ap length h.whole, length-append h.front (h.last ∷ []))

module _ (maps : List PmapLine) (mem : ℕ → ℕ) (pc ra sp : ℕ) (words : (a : ℕ) → mem a < 2 ^ 32)
    (null_page : (a : ℕ) → a < 4 → regular_addr maps a ≡ false) (pc_fits : pc < 2 ^ 32)
    (ra_fits : ra < 2 ^ 32) where
  -- The backtrace, where the depth is known.
  pub backtrace_depth :
      (fuel depth : ℕ) (c : Crash)
      → c.gbl_params.max_stack_depth ≡ depth
      → 2 ≤ depth
      → depth * 2 ^ 30 ≤ fuel
      → (buffer : List ℕ) × (create_global_backtrace maps mem fuel pc ra sp c ≡ some buffer)
        × ((regular_addr maps pc ≡ false) × (buffer ≡ []) ⊎ IsSound maps depth buffer)
  unfolding create_global_backtrace
  backtrace_depth fuel depth c same deep enough =
      subst
        (λ d.
          (buffer : List ℕ) × (mips_backtrace maps mem fuel d pc ra sp ≡ some buffer)
          × ((regular_addr maps pc ≡ false) × (buffer ≡ []) ⊎ IsSound maps depth buffer))
        (sym same)
        (mips_backtrace-IsSound maps mem depth fuel pc ra sp words null_page deep enough pc_fits
          ra_fits)

  -- After `miscCrash_init` with a depth of two or more, a file name and an array of signals that
  -- ends with a 0, the backtrace stays in its buffer: with registers and memory of 32 bits and no
  -- readable address below 4, it ends with as many entries as there is room for, or fewer.
  pub misc_crash_init_room :
      (sig : SignalNumbers) (p : CrashParameters) (name : Text) (ss rest : List ℕ) (c : Crash)
      (fuel depth : ℕ)
      → All (λ s. 0 < s) ss
      → 2 ≤ depth
      → depth * 2 ^ 30 ≤ fuel
      → (c' : Crash) × (buffer : List ℕ) × (misc_crash_init sig
            (some (record p {
              filename = some name;
              signals = ss ++ 0 ∷ rest;
              max_stack_depth = depth;
            }))
            c
          ≡ some (pos 0, c'))
        × (create_global_backtrace maps mem fuel pc ra sp c' ≡ some buffer)
        × (length buffer ≤ c'.backtrace_room)
  unfolding with_defaults
  misc_crash_init_room sig p name ss rest c fuel depth h deep enough =
      let p' = record p { max_stack_depth = depth } in
      let c' : Crash = record {
        gbl_params =
            with_defaults sig (record p' { filename = some name; signals = ss ++ 0 ∷ rest });
        backtrace_room = depth;
        caught = caught_on ss c.caught;
      } in
      let run =
        backtrace_depth fuel depth c' (rw (nonzero depth (omega (arith, deep))) refl) deep enough in
      (
        c',
        run.0,
        misc_crash_init-caught sig p' name ss rest c h,
        run.1,
        elim run.2 [
          | inl (outside, empty) ↦ omega (arith, ap length empty)
          | inr sound ↦ sound.fits
        ],
      )

  -- After `miscCrash_register`, where the signal numbers are not 0, a backtrace from a readable pc
  -- leaves its buffer: with registers and memory of 32 bits and no readable address below 4, it ends
  -- with more entries than there is room for.
  pub misc_crash_register_overflow :
      (sig : SignalNumbers) (proc_name : Text) (stdout : ℕ) (opened : Option (ℤ × ℤ)) (c : Crash)
      (fuel : ℕ)
      → IsNumbered sig
      → regular_addr maps pc ≡ true
      → 10 * 2 ^ 30 ≤ fuel
      → (c' : Crash) × (buffer : List ℕ) × (misc_crash_register sig proc_name stdout opened c
          ≡ some (pos 0, c'))
        × (create_global_backtrace maps mem fuel pc ra sp c' ≡ some buffer)
        × (c'.backtrace_room < length buffer)
  misc_crash_register_overflow sig proc_name stdout opened c fuel h readable enough =
      let registered = misc_crash_register-caught sig proc_name stdout opened c h in
      let run = backtrace_depth fuel 10 registered.0 registered.3 (omega arith) enough in
      (
        registered.0,
        run.0,
        registered.1,
        run.1,
        elim run.2 [
          | inl (outside, empty) ↦ absurd (ground (arith, readable, outside))
          | inr sound ↦ omega (arith, registered.4, IsSound-nonempty maps 10 run.0 sound)
        ],
      )
