-- ===== src/CrashTest/Child.antt =====
-- The child of crash_test.c, which crashes, and the crash handler in it.
use libmisc.Base.{
  ℕ, ◌*◌, ◌^◌, ◌≤◌, ◌<◌, ◌≡◌, refl, ◌∙◌, inl, inr, Bool, true, false, Option, some, List, leb, none,
  ==_self, arith, length,
}
use libmisc.Base.Int.{ℤ, minus_one}
use libmisc.Base.Text.{Text}
use libmisc.Mipsbt.{PmapLine, regular_addr}
use libmisc.Crash.{Crash, create_global_backtrace}
use libmisc.Crash.Register.{IsNumbered}
use libmisc.Crash.Room.{backtrace_depth, IsSound-nonempty}
use libmisc.Crash.Signals.{Actions, crash_action, among}
use libmisc.Crash.Dump.Report.{Report, Sources, crash_handler}
use libmisc.CrashTest.{Signals, main, signalled, lib_func_a}
use libmisc.CrashTest.Settled.{settled, main-Started}

segv_caught : (sig : Signals) (t : Actions) → settled sig t sig.crash.sigsegv ≡ crash_action
unfolding settled among
segv_caught sig t = rw (==_self sig.crash.sigsegv) (ground arith)

module _ (maps : List PmapLine) (mem : ℕ → ℕ) (pc ra sp fuel : ℕ) (expand : Text → Option Text)
    (show_ptr : ℕ → Text) (opened : ℤ × ℤ) (r : Report) (src : Sources) where
  -- What happens in the child. `u` are the actions at the crash, and `t` those that the program started
  -- with.
  pub record Crashed (sig : Signals) (t : Actions) (c : Crash) (u : Actions) : Type 0 where
    settles : (s : ℕ) → u s ≡ settled sig t s
    action : u sig.crash.sigsegv ≡ crash_action
    entries : List ℕ
    walked : create_global_backtrace maps mem fuel pc ra sp c ≡ some entries
    too_many : c.backtrace_room < length entries
    overrun :
        crash_handler expand show_ptr sig.sigchld maps mem fuel pc ra sp opened r src c minus_one
        ≡ none

  -- `main` of crash_test.c succeeds, and gives each signal its action (`settled`). Its child gets SIGSEGV
  -- where address 0 cannot be written, and its action is then `crash_handler`, not `signalHandler`. With
  -- registers and memory of 32 bits, no readable address below 4, signal numbers other than 0 and a
  -- readable pc, the backtrace of the handler comes to its end with more entries than its buffer has
  -- room for, so the handler has no result: it has written behind the buffer.
  pub child-Crashed :
      (sig : Signals) (writable : ℕ → Bool) (proc_name : Text) (stdout : ℕ) (device : ℤ × ℤ)
      (t : Actions)
      → IsNumbered sig.crash
      → writable 0 ≡ false
      → ((a : ℕ) → mem a < 2 ^ 32)
      → ((a : ℕ) → a < 4 → regular_addr maps a ≡ false)
      → pc < 2 ^ 32
      → ra < 2 ^ 32
      → regular_addr maps pc ≡ true
      → 10 * 2 ^ 30 ≤ fuel
      → (c : Crash) × (u : Actions) × (main sig proc_name stdout device t ≡ some (c, u))
        × (lib_func_a writable sig.crash.sigsegv ≡ signalled sig.crash.sigsegv)
        × Crashed sig t c u
  unfolding lib_func_a crash_handler
  child-Crashed sig writable proc_name stdout device t numbered fault words null_page pc_fits
        ra_fits readable enough =
      let (c, u, ran, started) = main-Started sig proc_name stdout device t numbered in
      let (entries, walked, shape) =
        backtrace_depth maps mem pc ra sp words null_page pc_fits ra_fits fuel 10 c started.depth
          (omega arith) enough in
      let too_many : c.backtrace_room < length entries = elim shape [
        | inl (outside, empty) ↦ absurd (ground (arith, readable, outside))
        | inr sound ↦ omega (arith, started.room, IsSound-nonempty maps 10 entries sound)
      ] in
      let no_room : leb (length entries) c.backtrace_room ≡ false = ground (arith, too_many) in
      (
        c,
        u,
        ran,
        rw (lib_func_a, fault) refl,
        record {
          settles = started.actions;
          action = started.actions sig.crash.sigsegv ∙ segv_caught sig t;
          entries = entries;
          walked = walked;
          too_many = too_many;
          overrun = rw (crash_handler, walked, no_room) refl;
        },
      )
