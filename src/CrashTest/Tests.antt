-- ===== src/CrashTest/Tests.antt =====
-- The signals of Linux on MIPS, and the theorem at them.
use libmisc.Base.{
  ℕ, ◌*◌, ◌^◌, ◌<◌, ◌≡◌, refl, Bool, true, false, Option, none, some, [], ◌∷◌, arith,
}
use libmisc.Base.Int.{pos, minus_one}
use libmisc.Base.Text.{Text, codes}
use libmisc.Mipsbt.{PmapLine, regular_addr}
use libmisc.Crash.{Crash}
use libmisc.Crash.Register.{IsNumbered}
use libmisc.Crash.Signals.{Actions, default_action, ignored, crash_action, program_action, among}
use libmisc.Crash.Dump.Report.{Report, Sources}
use libmisc.CrashTest.{Signals, main, lib_func_a, signalled}
use libmisc.CrashTest.Settled.{settled}
use libmisc.CrashTest.Child.{Crashed, child-Crashed}

abbrev mips : Signals
mips = record {
  crash = record {
    sighup = 1;
    sigill = 4;
    sigfpe = 8;
    sigbus = 10;
    sigsegv = 11;
    sigurg = 21;
    sigxcpu = 30;
    sigxfsz = 31;
    sigusr2 = 17;
  };
  sigint = 2;
  sigquit = 3;
  sigtrap = 5;
  sigabrt = 6;
  sigemt = 7;
  sigsys = 12;
  sigpipe = 13;
  sigalrm = 14;
  sigterm = 15;
  sigusr1 = 16;
  sigchld = 18;
  sigpwr = 19;
  sigwinch = 20;
  sigio = 22;
  sigtstp = 24;
  sigcont = 25;
  sigttin = 26;
  sigttou = 27;
  sigvtalrm = 28;
  sigprof = 29;
}

abbrev defaults : Actions
defaults s = default_action

numbered : IsNumbered mips.crash
numbered = (
  omega arith,
  (
    omega arith,
    (omega arith, (omega arith, (omega arith, (omega arith, (omega arith, (omega arith, tt)))))),
  ),
)

-- Three signals that `main` treats in its three ways, and one that it leaves alone.
settled_actions :
    (settled mips defaults 11 ≡ crash_action)
    × (settled mips defaults 2 ≡ ignored)
    × (settled mips defaults 18 ≡ program_action)
    × (settled mips defaults 9 ≡ default_action)
unfolding settled among
settled_actions = (refl, refl, refl, refl)

abbrev text : PmapLine
text = record {
  vm_start = 4096;
  vm_end = 8192;
  permission = codes "r-xp";
  vm_page_offset = 0;
  dev = codes "00:00";
  innode_number = 0;
}

abbrev zero_memory : ℕ → ℕ
zero_memory a = 0

readable : regular_addr (text ∷ []) 4104 ≡ true
unfolding regular_addr
readable = refl

null_page : (a : ℕ) → a < 4 → regular_addr (text ∷ []) a ≡ false
unfolding regular_addr
null_page a h = ground arith

abbrev no_write : ℕ → Bool
no_write a = false

abbrev no_ptr : ℕ → Text
no_ptr a = codes "(nil)"

abbrev as_it_is : Text → Option Text
as_it_is s = some s

abbrev segv : Report
segv = record {
  signo = 11;
  pid = 77;
  tm = record { tm_year = 110; tm_mon = 2; tm_mday = 5; tm_hour = 13; tm_min = 19; tm_sec = 34 };
  siginfo = record {
    si_signo = pos 11;
    si_errno = pos 0;
    si_code = pos 1;
    si_pid = pos 0;
    si_addr = 0;
    si_status = 0;
  };
}

abbrev one_process : Sources
one_process = record {
  ps = some (codes "  PID TTY\n" ∷ []);
  meminfo = none;
  stat = none;
  maps_file = none;
}

child-Crashed_example :
    (c : Crash) × (u : Actions) × (main mips (codes "crash_test") 1 (pos 4, pos 4) defaults
      ≡ some (c, u))
    × (lib_func_a no_write 11 ≡ signalled 11)
    × Crashed
        (text ∷ [])
        zero_memory
        4104
        0
        0
        (10 * 2 ^ 30)
        as_it_is
        no_ptr
        (minus_one, pos 5)
        segv
        one_process
        mips
        defaults
        c
        u
child-Crashed_example =
    child-Crashed (text ∷ []) zero_memory 4104 0 0 (10 * 2 ^ 30) as_it_is no_ptr (minus_one, pos 5)
      segv one_process mips no_write (codes "crash_test") 1 (pos 4, pos 4) defaults numbered refl
      (λ a. omega arith) null_page (omega arith) (omega arith) readable (omega arith)
