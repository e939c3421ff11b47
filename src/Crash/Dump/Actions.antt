-- ===== src/Crash/Dump/Actions.antt =====
-- The crash handler and the actions for signals.
use mathlib.Core.List.{append-nil}
use libmisc.Base.{
  leb, length, ◌≤◌, true, arith, if◌then◌else◌, ℕ, ◌≡◌, refl, ap, ◌∙◌, Bool, true, false, Option,
  none, some, List, [], ◌∷◌, ◌++◌, ==_self, if◌then◌else◌, arith,
}
use libmisc.Base.Int.{ℤ}
use libmisc.Base.Text.{Text, codes}
use libmisc.Crash.{Crash, create_global_backtrace}
use libmisc.Crash.Signals.{Action, Actions, default_action, set_action}
use libmisc.Crash.Dump.Close.{output_fini-silent}
use libmisc.Crash.Dump.Quiet.{
  print_lines-signals, output_fini-signals, output_file-signals, around, output_cmd-signals,
}
use libmisc.Crash.Dump.Signals.{
  signals, actions_after, actions_during, signals-append, quiet, actions_after-signals,
  actions_during-signals,
}
use libmisc.Crash.Dump.Report.{
  Report, Sources, report_lines, print_lines, proc_file, frame_lines, output_backtrace,
  crash_handler, thick_rule, title, star,
}
use libmisc.Crash.Dump.{
  defaults_signal, Effects, Outputs, print_line, output_file, output_cmd, output_init, output_fini,
  Input,
}
use libmisc.Mipsbt.{PmapLine}

-- The file or the command cannot be opened.
abbrev pub is_missing : Input → Bool
is_missing none = true
is_missing (some bufs) = false

module _ (expand : Text → Option Text) (show_ptr : ℕ → Text) (sigchld : ℕ) where
  output_backtrace-signals :
      (r : Report) (src : Sources) (entries : List ℕ) (o : Outputs)
      → signals (output_backtrace expand show_ptr sigchld r src entries o)
        ≡ around expand o sigchld (codes "ps") src.ps
  unfolding output_backtrace
  output_backtrace-signals r src entries o =
      let stat = proc_file r.pid (codes "/stat") in
      let maps = proc_file r.pid (codes "/maps") in
      let head = thick_rule ∷ title ∷ thick_rule ∷ star ∷ [] in
      let foot = star ∷ thick_rule ∷ title ∷ thick_rule ∷ [] in
      let frames = frame_lines show_ptr 0 entries in
      let command = output_cmd expand sigchld o (codes "ps") src.ps in
      let rest =
        output_file expand o (codes "/proc/meminfo") src.meminfo
        ++ (output_file expand o stat src.stat
            ++ (output_file expand o maps src.maps_file
                ++ (print_lines o head ++ (print_lines o frames ++ print_lines o foot)))) in
      let rest_quiet : signals rest ≡ [] =
        quiet (output_file expand o (codes "/proc/meminfo") src.meminfo) _
          (output_file-signals expand o (codes "/proc/meminfo") src.meminfo)
        ∙ quiet (output_file expand o stat src.stat) _ (output_file-signals expand o stat src.stat)
        ∙ quiet (output_file expand o maps src.maps_file) _
            (output_file-signals expand o maps src.maps_file)
        ∙ quiet (print_lines o head) _ (print_lines-signals o head)
        ∙ quiet (print_lines o frames) _ (print_lines-signals o frames)
        ∙ print_lines-signals o foot in
      quiet (print_lines o (report_lines r)) (command ++ rest)
        (print_lines-signals o (report_lines r))
      ∙ signals-append command rest
      ∙ ap (λ l. signals command ++ l) rest_quiet
      ∙ append-nil (signals command)
      ∙ output_cmd-signals expand o sigchld (codes "ps") src.ps

  -- The actions that a dump leaves.
  around-after :
      (o : Outputs) (command : Text) (input : Input) (signo : ℕ) (saved : Action) (t : Actions)
      (s : ℕ)
      → actions_after
          (around expand o sigchld command input ++ defaults_signal signo ∷ [])
          saved
          t
          s
        ≡ set_action signo default_action
            (if is_missing input then set_action sigchld default_action t else t)
            s
  unfolding actions_after set_action
  around-after o command none signo saved t s = refl
  around-after o command (some bufs) signo saved t s = ground arith

  around-during :
      (o : Outputs) (command : Text) (input : Input) (signo : ℕ) (saved : Action) (t : Actions)
      → actions_during sigchld
          (around expand o sigchld command input ++ defaults_signal signo ∷ [])
          saved
          t
        ≡ (if is_missing input then [] else default_action ∷ [])
  unfolding actions_during set_action
  around-during o command none signo saved t = refl
  around-during o command (some bufs) signo saved t = rw (==_self sigchld) refl

  -- The outcome of `crash_handler` for the signals and the outputs.
  pub record Handled (r : Report) (src : Sources) (saved : Action) (t : Actions) (after : Crash × ℤ)
      (es : Effects) : Type 0 where
    pub during :
        actions_during sigchld es saved t ≡ (if is_missing src.ps then [] else default_action ∷ [])
    pub behind :
        (s : ℕ)
        → actions_after es saved t s
          ≡ set_action r.signo default_action
              (if is_missing src.ps then set_action sigchld default_action t else t)
              s
    pub silent :
        (line : Text)
        → print_line (record { gbl_params = after.0.gbl_params; gbl_fd = after.1 }) line ≡ []

  -- `crash_handler`, where its backtrace comes to its end inside its buffer, runs `ps`, if that can be started, while
  -- SIGCHLD has its default action. Behind it, the signal of the crash has its default action and every other signal that of
  -- before, except that SIGCHLD keeps the default action if `ps` could not be started; and
  -- `outputPrintf` writes nothing any more.
  pub crash_handler-Handled :
      (maps : List PmapLine) (mem : ℕ → ℕ) (fuel pc ra sp : ℕ) (opened : ℤ × ℤ) (r : Report)
      (src : Sources) (c : Crash) (gbl_fd : ℤ) (entries : List ℕ) (saved : Action) (t : Actions)
      → create_global_backtrace maps mem fuel pc ra sp c ≡ some entries
      → length entries ≤ c.backtrace_room
      → (after : Crash × ℤ) × (es : Effects) × (crash_handler expand show_ptr sigchld maps mem fuel
            pc ra sp opened r src c gbl_fd
          ≡ some (after, es))
        × Handled r src saved t after es
  unfolding crash_handler signals
  crash_handler-Handled maps mem fuel pc ra sp opened r src c gbl_fd entries saved t ends fits =
      let o = output_init opened (record { gbl_params = c.gbl_params; gbl_fd = gbl_fd }) in
      let closed = output_fini o in
      let room : leb (length entries) c.backtrace_room ≡ true = ground (arith, fits) in
      let dump = output_backtrace expand show_ptr sigchld r src entries o in
      let es = dump ++ (closed.1 ++ defaults_signal r.signo ∷ []) in
      let on_signals : signals es
          ≡ around expand o sigchld (codes "ps") src.ps ++ defaults_signal r.signo ∷ [] =
        signals-append dump (closed.1 ++ defaults_signal r.signo ∷ [])
        ∙ ap (λ l. signals dump ++ l)
            (quiet closed.1 (defaults_signal r.signo ∷ []) (output_fini-signals o))
        ∙ ap (λ l. l ++ defaults_signal r.signo ∷ []) (output_backtrace-signals r src entries o) in
      (
        (record c { gbl_params = closed.0.gbl_params }, closed.0.gbl_fd),
        es,
        rw (crash_handler, ends, room) refl,
        record {
          during =
              actions_during-signals sigchld es saved t
              ∙ ap (λ l. actions_during sigchld l saved t) on_signals
              ∙ around-during o (codes "ps") src.ps r.signo saved t;
          behind = λ s.
              ap (λ f. f s) (actions_after-signals es saved t)
              ∙ ap (λ l. actions_after l saved t s) on_signals
              ∙ around-after o (codes "ps") src.ps r.signo saved t s;
          silent = λ line. output_fini-silent o line;
        },
      )
