-- ===== src/Crash/Dump/Ends.antt =====
-- The crash handler behind `miscCrash_init`: it comes to its end, and every output is given the dump.
use libmisc.Base.{
  ℕ, ◌≤◌, ◌<◌, ◌≡◌, ◌≢◌, refl, true, Option, some, List, ◌∷◌, ◌++◌, nonzero, All, arith, length,
  length-take, take,
}
use libmisc.Base.Int.{ℤ, pos}
use libmisc.Base.Text.{Text}
use libmisc.Mipsbt.{PmapLine, regular_addr}
use libmisc.Mipsbt.Stack.{IsStack}
use libmisc.Mipsbt.Stack.Found.{shown_callers, mips_backtrace-IsStack}
use libmisc.Crash.{
  Crash, CrashParameters, SignalNumbers, misc_crash_init, with_defaults, create_global_backtrace,
}
use libmisc.Crash.Register.{misc_crash_init-caught, caught_on}
use libmisc.Crash.Dump.{Effects, Outputs, output_init}
use libmisc.Crash.Dump.Report.{Report, Sources, crash_handler}
use libmisc.Crash.Dump.Shown.{stream, descriptor, received, short, dump_lines}
use libmisc.Crash.Dump.Sinks.{
  file_fd, IsOpen, output_init-IsOpen, Delivers-stream, Delivers-file, Delivers-fd,
}
use libmisc.Crash.Dump.Handler.{crash_handler-dump_lines}

-- The parameters of a program: a file name, an open file, a descriptor, a depth, and signals in front
-- of a 0.
abbrev pub parameters : CrashParameters → Text → ℕ → ℕ → ℕ → List ℕ → List ℕ → CrashParameters
parameters p name file fd depth ss rest = record p {
  filename = some name;
  filep = some file;
  fd = pos fd;
  signals = ss ++ 0 ∷ rest;
  max_stack_depth = depth;
}

module _ (sig : SignalNumbers) (p : CrashParameters) (name : Text) (file fd depth : ℕ)
    (ss rest : List ℕ) (c : Crash) (maps : List PmapLine) (mem : ℕ → ℕ) (fuel pc ra sp : ℕ)
    (expand : Text → Option Text) (show_ptr : ℕ → Text) (sigchld : ℕ) (opened : ℤ × ℤ) (r : Report)
    (src : Sources) (gbl_fd : ℤ) (d : ℕ) where
  -- After `miscCrash_init` with the parameters, `crash_handler` returns, the entries of its backtrace fit
  -- their buffer, and each of its three outputs is given exactly the lines of the dump that are
  -- shorter than 255 bytes, in their order.
  pub record Dumped (entries : List ℕ) : Type 0 where
    pub c' : Crash
    pub started :
        misc_crash_init sig (some (parameters p name file fd depth ss rest)) c ≡ some (pos 0, c')
    pub fits : length entries ≤ c'.backtrace_room
    pub after : Crash × ℤ
    pub effects : Effects
    pub handled :
        crash_handler expand show_ptr sigchld maps mem fuel pc ra sp opened r src c' gbl_fd
        ≡ some (after, effects)
    pub on_stream :
        received (stream file) effects ≡ short (dump_lines expand show_ptr r src entries)
    pub on_file :
        received (descriptor (pos d)) effects ≡ short (dump_lines expand show_ptr r src entries)
    pub on_fd :
        received (descriptor (pos fd)) effects ≡ short (dump_lines expand show_ptr r src entries)

  -- What `miscCrash_init` leaves.
  abbrev initialised : Crash
  initialised = record {
    gbl_params = with_defaults sig (parameters p name file fd depth ss rest);
    backtrace_room = depth;
    caught = caught_on ss c.caught;
  }

  module _ (numbered : All (λ s. 0 < s) ss) (opens : file_fd opened ≡ pos d) (apart : d ≢ fd) where
    walked-Dumped :
        (entries : List ℕ)
        → create_global_backtrace maps mem fuel pc ra sp initialised ≡ some entries
        → length entries ≤ depth
        → Dumped entries
    unfolding with_defaults
    walked-Dumped entries walked room =
        let p' = record p { filep = some file; fd = pos fd; max_stack_depth = depth } in
        let o : Outputs =
          output_init opened (record { gbl_params = initialised.gbl_params; gbl_fd = gbl_fd }) in
        let is : IsOpen o d file fd =
          output_init-IsOpen opened
            (record { gbl_params = initialised.gbl_params; gbl_fd = gbl_fd }) name d file fd refl
            refl refl opens in
        let (after, effects, handled, given) =
          crash_handler-dump_lines expand show_ptr sigchld maps mem fuel pc ra sp opened r src
            initialised gbl_fd entries walked room in
        record {
          c' = initialised;
          started = misc_crash_init-caught sig p' name ss rest c numbered;
          fits = room;
          after = after;
          effects = effects;
          handled = handled;
          on_stream = given (stream file) (Delivers-stream is);
          on_file = given (descriptor (pos d)) (Delivers-file is apart);
          on_fd = given (descriptor (pos fd)) (Delivers-fd is apart);
        }

    module _ (deep : 2 ≤ depth) where
      -- Where the pc is readable and the code and memory show the call stack, the handler behind
      -- `miscCrash_init` returns and dumps the pc and the return addresses of its callers, the innermost
      -- first, as many as the depth allows: a depth of two or more is given, the signals are not 0, the
      -- file is opened, and its descriptor is not the other one.
      pub misc_crash_init-IsStack :
          (n : ℕ) (rets : List ℕ)
          → regular_addr maps pc ≡ true
          → IsStack maps mem pc ra sp rets n
          → n < fuel
          → Dumped (pc ∷ take (shown_callers depth) rets)
      unfolding create_global_backtrace with_defaults
      misc_crash_init-IsStack n rets readable stack enough =
          walked-Dumped (pc ∷ take (shown_callers depth) rets)
            (rw (nonzero depth (omega (arith, deep)))
              (mips_backtrace-IsStack maps mem depth pc ra sp fuel n rets readable stack enough))
            (ground (arith, deep, length-take (shown_callers depth) rets))
