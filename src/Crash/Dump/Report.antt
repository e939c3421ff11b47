-- ===== src/Crash/Dump/Report.antt =====
-- `outputBacktrace` and `crash_handler`.
use libmisc.Base.{ℕ, suc, ◌+◌, Option, none, some, List, [], ◌∷◌, ◌++◌, leb, length, if◌then◌else◌}
use libmisc.Base.Int.{ℤ}
use libmisc.Base.Text.{Text, codes, decimal, truncated}
use libmisc.Base.Text.Format.{decimal_int, padded, hex_08}
use libmisc.Crash.{Crash, create_global_backtrace}
use libmisc.Crash.Dump.{
  Effects, defaults_signal, Outputs, print_line, Input, output_file, output_cmd, output_init,
  output_fini, line_feed,
}
use libmisc.Mipsbt.{PmapLine}

-- `struct tm`, as far as it is printed.
pub record Tm : Type 0 where
  pub tm_year : ℕ
  pub tm_mon : ℕ
  pub tm_mday : ℕ
  pub tm_hour : ℕ
  pub tm_min : ℕ
  pub tm_sec : ℕ

-- `siginfo_t`, as far as it is printed.
pub record SigInfo : Type 0 where
  pub si_signo : ℤ
  pub si_errno : ℤ
  pub si_code : ℤ
  pub si_pid : ℤ
  pub si_addr : ℕ
  pub si_status : ℕ

-- What the handler gets and asks for: the signal, the process and the time.
pub record Report : Type 0 where
  pub signo : ℕ
  pub pid : ℕ
  pub tm : Tm
  pub siginfo : SigInfo

-- The command and the files that are dumped.
pub record Sources : Type 0 where
  pub ps : Input
  pub meminfo : Input
  pub stat : Input
  pub maps_file : Input

abbrev two : ℕ → Text
two n = padded 2 (decimal n)

-- `"*      datetime: [%04d-%02d-%02d %02d:%02d:%02d]\n"`
unfoldable pub datetime : Tm → Text
datetime t =
    codes "*      datetime: ["
    ++ (padded 4 (decimal (t.tm_year + 1900))
        ++ (codes "-"
            ++ (two (t.tm_mon + 1)
                ++ (codes "-"
                    ++ (two t.tm_mday
                        ++ (codes " "
                            ++ (two t.tm_hour
                                ++ (codes ":"
                                    ++ (two t.tm_min
                                        ++ (codes ":" ++ (two t.tm_sec ++ codes "]\n")))))))))))

abbrev thin_rule : Text
thin_rule = codes "------------------------------------------------------------\n"

abbrev pub thick_rule : Text
thick_rule = codes "************************************************************\n"

abbrev pub title : Text
title = codes "*               mCrash BackTrace Dump\n"

abbrev pub star : Text
star = codes "*\n"

-- The lines on the signal, up to the second rule.
unfoldable pub report_lines : Report → List Text
unfolding datetime
report_lines r =
    thin_rule
    ∷ (codes "* mCrash received signal "
        ++ (decimal r.signo ++ (codes " on thread PID " ++ (decimal r.pid ++ line_feed))))
    ∷ datetime r.tm
    ∷ (codes "*      siginfo->si_signo   = " ++ (decimal_int r.siginfo.si_signo ++ line_feed))
    ∷ (codes "*      siginfo->si_errno   = " ++ (decimal_int r.siginfo.si_errno ++ line_feed))
    ∷ (codes "*      siginfo->si_code    = " ++ (decimal_int r.siginfo.si_code ++ line_feed))
    ∷ (codes "*      siginfo->si_pid     = " ++ (decimal_int r.siginfo.si_pid ++ line_feed))
    ∷ (codes "*      siginfo->si_addr    = 0x" ++ (hex_08 r.siginfo.si_addr ++ line_feed))
    ∷ (codes "*      siginfo->si_status  = 0x" ++ (hex_08 r.siginfo.si_status ++ line_feed))
    ∷ thin_rule
    ∷ []

-- Calls of `outputPrintf` in a row.
unfoldable pub print_lines : Outputs → List Text → Effects
print_lines o [] = []
print_lines o (line ∷ lines) = print_line o line ++ print_lines o lines

-- The `snprintf` of the name of a file of the process.
unfoldable pub proc_file : ℕ → Text → Text
proc_file pid name = truncated 64 (codes "/proc/" ++ (decimal pid ++ name))

-- The lines of `outputGlobalBacktrace` from frame `i` on; `show_ptr` is `%p`. On MIPS there are no
-- symbols.
unfoldable pub frame_lines : (ℕ → Text) → ℕ → List ℕ → List Text
frame_lines show_ptr i [] = []
frame_lines show_ptr i (entry ∷ entries) =
    (codes "*      Frame " ++ (two i ++ (codes ": " ++ (show_ptr entry ++ line_feed))))
    ∷ frame_lines show_ptr (suc i) entries

module _ (expand : Text → Option Text) (show_ptr : ℕ → Text) (sigchld : ℕ) where
  -- `outputBacktrace`, with the entries that `createGlobalBacktrace` finds.
  unfoldable pub output_backtrace : Report → Sources → List ℕ → Outputs → Effects
  unfolding report_lines print_lines proc_file frame_lines
  output_backtrace r src entries o =
      print_lines o (report_lines r)
      ++ (output_cmd expand sigchld o (codes "ps") src.ps
          ++ (output_file expand o (codes "/proc/meminfo") src.meminfo
              ++ (output_file expand o (proc_file r.pid (codes "/stat")) src.stat
                  ++ (output_file expand o (proc_file r.pid (codes "/maps")) src.maps_file
                      ++ (print_lines o (thick_rule ∷ title ∷ thick_rule ∷ star ∷ [])
                          ++ (print_lines o (frame_lines show_ptr 0 entries)
                              ++ print_lines o (star ∷ thick_rule ∷ title ∷ thick_rule ∷ [])))))))

  -- `crash_handler`, with the results of the two calls of `open`; `none` where the backtrace does not
  -- come to its end, or has written behind `gbl_backtraceBuffer`.
  unfoldable pub crash_handler :
      List PmapLine
      → (ℕ → ℕ)
      → ℕ
      → ℕ
      → ℕ
      → ℕ
      → ℤ × ℤ
      → Report
      → Sources
      → Crash
      → ℤ
      → Option ((Crash × ℤ) × Effects)
  unfolding output_backtrace
  crash_handler maps mem fuel pc ra sp opened r src c gbl_fd =
      let start : Outputs = record { gbl_params = c.gbl_params; gbl_fd = gbl_fd } in
      let o = output_init opened start in
      let closed = output_fini o in
      elim (create_global_backtrace maps mem fuel pc ra sp c) [
        | none ↦ none
        | some entries ↦
            if leb (length entries) c.backtrace_room
            then some (
              (record c { gbl_params = closed.0.gbl_params }, closed.0.gbl_fd),
              output_backtrace r src entries o ++ (closed.1 ++ defaults_signal r.signo ∷ []),
            )
            else none
      ]
