-- ===== src/Crash/Tests.antt =====
-- A partial write, and the theorems at concrete inputs.
use libmisc.Base.{
  ℕ, zero, suc, ◌<◌, ◌^◌, ◌*◌, ◌≡◌, refl, true, false, none, some, List, [], ◌∷◌, arith, length,
}
use libmisc.Base.Int.{pos, negsuc}
use libmisc.Base.Text.{codes}
use libmisc.Mipsbt.{PmapLine, regular_addr}
use libmisc.Crash.{
  Crash, CrashParameters, SignalNumbers, misc_crash_register, create_global_backtrace,
}
use libmisc.Crash.Debug.{misc_crash_init_prints}
use libmisc.Crash.Output.{Answers, blocking_write}
use libmisc.Crash.Write.{IsSent, blocking_write-IsSent}
use libmisc.Crash.Room.{misc_crash_register_overflow}

-- A descriptor that takes two bytes at first, and then one.
abbrev two_bytes : Answers
two_bytes zero = some 2
two_bytes (suc call) = some 1

-- The third byte is the first one again.
partial_write : blocking_write two_bytes (codes "abc") 3 ≡ some (3, codes "aba")
unfolding blocking_write
partial_write = refl

abbrev pub mips_signals : SignalNumbers
mips_signals = record {
  sighup = 1;
  sigill = 4;
  sigfpe = 8;
  sigbus = 10;
  sigsegv = 11;
  sigurg = 21;
  sigxcpu = 30;
  sigxfsz = 31;
  sigusr2 = 17;
}

abbrev pub plain : CrashParameters
plain = record {
  filename = none;
  filep = none;
  fd = negsuc 0;
  debug_level = pos 0;
  max_stack_depth = 4;
  default_backtrace_signal = pos 0;
  use_backtrace_symbols = pos 0;
  signals = [];
}

abbrev pub fresh : Crash
fresh = record { gbl_params = plain; backtrace_room = 0; caught = [] }

abbrev segment : PmapLine
segment = record {
  vm_start = 4096;
  vm_end = 8192;
  permission = codes "r-xp";
  vm_page_offset = 0;
  dev = codes "00:00";
  innode_number = 0;
}

abbrev pub one_segment : List PmapLine
one_segment = segment ∷ []

abbrev pub nops : ℕ → ℕ
nops a = 0

pub null_page : (a : ℕ) → a < 4 → regular_addr one_segment a ≡ false
unfolding regular_addr
null_page a h = ground arith

pub nop_words : (a : ℕ) → nops a < 2 ^ 32
nop_words a = omega arith

readable : regular_addr one_segment 5000 ≡ true
unfolding regular_addr
readable = refl

-- Before any parameters are set, the debug level is 0, and every line is printed.
prints_of_null :
    misc_crash_init_prints mips_signals none fresh
    ≡ some (codes "   Error:  Null Params!\nInit Complete ret=-1\n", negsuc 0, fresh)
unfolding misc_crash_init_prints
prints_of_null = refl

blocking_write-IsSent_example :
    IsSent two_bytes 0 (codes "abc") 3 (blocking_write two_bytes (codes "abc") 3)
blocking_write-IsSent_example = blocking_write-IsSent two_bytes (codes "abc") 3

misc_crash_register_overflow_example :
    (c' : Crash) × (buffer : List ℕ) × (misc_crash_register mips_signals
        (codes "httpd")
        1
        none
        fresh
      ≡ some (pos 0, c'))
    × (create_global_backtrace one_segment nops (10 * 2 ^ 30) 5000 0 0 c' ≡ some buffer)
    × (c'.backtrace_room < length buffer)
misc_crash_register_overflow_example =
    misc_crash_register_overflow one_segment nops 5000 0 0 nop_words null_page (omega arith)
      (omega arith) mips_signals (codes "httpd") 1 none fresh (10 * 2 ^ 30)
      (
        omega arith,
        (
          omega arith,
          (
            omega arith,
            (omega arith, (omega arith, (omega arith, (omega arith, (omega arith, tt))))),
          ),
        ),
      )
      readable (omega arith)
