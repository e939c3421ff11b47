-- ===== src/Crash/Dump/Tests.antt =====
-- A dump without sources, and the theorems at it.
use libmisc.Base.{
  ℕ, take, ◌==◌, if◌then◌else◌, ◌≡◌, ◌≢◌, refl, Bool, true, false, Option, none, some, [], ◌∷◌,
  ◌++◌, ◌≤◌, length, All, arith,
}
use libmisc.Base.Int.{ℤ, pos, negsuc, minus_one}
use libmisc.Base.Text.{Text, codes}
use libmisc.Crash.{Crash, CrashParameters, create_global_backtrace}
use libmisc.Crash.Dump.{Effects, Outputs}
use libmisc.Crash.Dump.Report.{Report, Sources, Tm, crash_handler, datetime}
use libmisc.Crash.Dump.Ends.{Dumped, misc_crash_init-IsStack}
use libmisc.Mipsbt.{regular_addr}
use libmisc.Mipsbt.Stack.{IsStack, leaf, unsaved, back, here}
use libmisc.Mipsbt.Stack.Found.{shown_callers}
use libmisc.Crash.Tests.{mips_signals, plain, fresh, one_segment, nops}
use libmisc.Mipsbt.{mips_backtrace}
use libmisc.Crash.Signals.{Actions, default_action, program_action}
use libmisc.Crash.Dump.Actions.{Handled, crash_handler-Handled}

abbrev new_year : Tm
new_year = record { tm_year = 110; tm_mon = 0; tm_mday = 1; tm_hour = 23; tm_min = 5; tm_sec = 9 }

abbrev segv : Report
segv = record {
  signo = 11;
  pid = 321;
  tm = new_year;
  siginfo = record {
    si_signo = pos 11;
    si_errno = pos 0;
    si_code = negsuc 5;
    si_pid = pos 321;
    si_addr = 0xdeadbeef;
    si_status = 0;
  };
}

abbrev no_sources : Sources
no_sources = record {
  ps = none;
  meminfo = none;
  stat = none;
  maps_file = some (codes "4096-8192 r-xp\n" ∷ []);
}

abbrev to_stdout : CrashParameters
to_stdout = record {
  filename = some (codes "mCrash.httpd.file");
  filep = some 1;
  fd = pos 0;
  debug_level = pos 5;
  max_stack_depth = 10;
  default_backtrace_signal = pos 17;
  use_backtrace_symbols = pos 0;
  signals = [];
}

abbrev opened_outputs : Outputs
opened_outputs = record { gbl_params = to_stdout; gbl_fd = pos 5 }

-- A file that has no conversion in it is printed as it is.
abbrev as_it_is : Text → Option Text
as_it_is s = some s

abbrev no_ptr : ℕ → Text
no_ptr a = codes "(nil)"

datetime_text : datetime new_year ≡ codes "*      datetime: [2010-01-01 23:05:09]\n"
unfolding datetime libmisc.Base.Text.decimal libmisc.Base.Text.Format.padded
datetime_text = refl

-- Every signal has the action of the program.
abbrev own_actions : Actions
own_actions s = program_action

crash_handler-Handled_example :
    (after : Crash × ℤ) × (es : Effects) × (crash_handler as_it_is no_ptr 18 one_segment nops 50
        4104 0 0
        (minus_one, pos 5)
        segv
        no_sources
        (record fresh { backtrace_room = 4 })
        minus_one
      ≡ some (after, es))
    × Handled as_it_is no_ptr 18 segv no_sources default_action own_actions after es
unfolding create_global_backtrace mips_backtrace
crash_handler-Handled_example =
    crash_handler-Handled as_it_is no_ptr 18 one_segment nops 50 4104 0 0 (minus_one, pos 5) segv
      no_sources (record fresh { backtrace_room = 4 }) minus_one (4104 ∷ []) default_action
      own_actions refl (omega arith)

-- At 4096 a leaf makes its frame; the code behind it calls the leaf and has no frame of its own.
abbrev leaf_code : ℕ → ℕ
leaf_code a = if a == 4096 then 0x27bdfff0 else 0

leaf-IsStack : IsStack one_segment leaf_code 4100 4108 8000 (4108 ∷ []) 5
unfolding regular_addr
leaf-IsStack =
    leaf 1 4096 3 [] (back 4100 0 4096 (refl, refl) (here 4096)) (refl, refl) refl
      (unsaved 4108 8016 3 4096
        (back 4108 2 4096 (refl, refl)
          (back 4104 1 4096 (refl, refl) (back 4100 0 4096 (refl, refl) (here 4096))))
        (refl, refl))

leaf_readable : regular_addr one_segment 4100 ≡ true
unfolding regular_addr
leaf_readable = refl

misc_crash_init-IsStack_example :
    Dumped mips_signals plain
      (codes "f")
      7
      9
      4
      (11 ∷ [])
      []
      fresh
      one_segment
      leaf_code
      6
      4100
      4108
      8000
      as_it_is
      no_ptr
      18
      (minus_one, pos 5)
      segv
      no_sources
      minus_one
      5
      (4100 ∷ take (shown_callers 4) (4108 ∷ []))
misc_crash_init-IsStack_example =
    misc_crash_init-IsStack mips_signals plain (codes "f") 7 9 4 (11 ∷ []) [] fresh one_segment
      leaf_code 6 4100 4108 8000 as_it_is no_ptr 18 (minus_one, pos 5) segv no_sources minus_one 5
      (omega arith, tt) refl (omega arith) (omega arith) 5 (4108 ∷ []) leaf_readable leaf-IsStack
      (omega arith)
