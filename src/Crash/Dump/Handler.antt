-- ===== src/Crash/Dump/Handler.antt =====
-- What the crash handler writes.
use mathlib.Core.List.{append-nil}
use libmisc.Base.{
  leb, length, ◌≤◌, true, arith, if◌then◌else◌, ℕ, ◌≡◌, refl, ap, ◌∙◌, Bool, true, false, Option,
  none, some, List, [], ◌∷◌, ◌++◌, if◌then◌else◌,
}
use libmisc.Base.Int.{ℤ, minus_one, ltb_ℤ}
use libmisc.Base.Text.{Text, codes}
use libmisc.Crash.{Crash, create_global_backtrace}
use libmisc.Crash.Dump.{
  closes, fcloses, syncs, runs, defaults_signal, restores_signal, Effects, Outputs, print_line,
  print_format, print_buffers, output_file, output_cmd, output_init, output_fini, Input, line_feed,
}
use libmisc.Crash.Dump.Report.{
  Report, Sources, report_lines, proc_file, frame_lines, output_backtrace, crash_handler,
  thick_rule, title, star,
}
use libmisc.Crash.Dump.Shown.{
  Sink, Delivers, received, short, expanded, formatted, file_headline, command_headline, section,
  dump_lines, Gives, Gives-append, print_line-Gives, print_lines-Gives, received-append,
}
use libmisc.Mipsbt.{PmapLine}

module _ (expand : Text → Option Text) (k : Sink) (o : Outputs) (delivers : Delivers k o) where
  print_format-Gives : (buf : Text) → Gives k (print_format expand o buf) (formatted (expand buf))
  unfolding print_format
  print_format-Gives buf = go (expand buf)
    where
      go :
          (m : Option Text)
          → Gives k
              (elim m as (λ _. Effects) [ none ↦ [] | some line ↦ print_line o line ])
              (formatted m)
      go none = unfold received short in refl
      go (some line) = print_line-Gives k o delivers line

  print_buffers-Gives :
      (bufs : List Text) → Gives k (print_buffers expand o bufs) (expanded expand bufs)
  unfolding print_buffers expanded received short
  print_buffers-Gives [] = refl
  print_buffers-Gives (buf ∷ bufs) =
      Gives-append k (print_format expand o buf) (print_buffers expand o bufs)
        (formatted (expand buf)) (expanded expand bufs) (print_format-Gives buf)
        (print_buffers-Gives bufs)

  -- The buffers and the last line feed.
  body-Gives :
      (bufs : List Text)
      → Gives k
          (print_buffers expand o bufs ++ print_line o line_feed)
          (expanded expand bufs ++ line_feed ∷ [])
  body-Gives bufs =
      Gives-append k (print_buffers expand o bufs) (print_line o line_feed) (expanded expand bufs)
        (line_feed ∷ []) (print_buffers-Gives bufs) (print_line-Gives k o delivers line_feed)

  output_file-Gives :
      (file : Text) (input : Input)
      → Gives k (output_file expand o file input) (section expand (file_headline file) input)
  unfolding output_file section received short
  output_file-Gives file none =
      Gives-append k (print_line o (file_headline file)) [] (file_headline file ∷ []) []
        (print_line-Gives k o delivers (file_headline file)) refl
  output_file-Gives file (some bufs) =
      Gives-append k (print_line o (file_headline file))
        (print_buffers expand o bufs ++ print_line o line_feed) (file_headline file ∷ [])
        (expanded expand bufs ++ line_feed ∷ [])
        (print_line-Gives k o delivers (file_headline file)) (body-Gives bufs)

  output_cmd-Gives :
      (sigchld : ℕ) (command : Text) (input : Input)
      → Gives k
          (output_cmd expand sigchld o command input)
          (section expand (command_headline command) input)
  unfolding output_cmd section received short
  output_cmd-Gives sigchld command none =
      Gives-append k (print_line o (command_headline command)) (defaults_signal sigchld ∷ [])
        (command_headline command ∷ []) []
        (print_line-Gives k o delivers (command_headline command)) refl
  output_cmd-Gives sigchld command (some bufs) =
      Gives-append k (print_line o (command_headline command))
        (defaults_signal sigchld
          ∷ runs command
          ∷ (print_buffers expand o bufs ++ restores_signal sigchld ∷ print_line o line_feed))
        (command_headline command ∷ []) (expanded expand bufs ++ line_feed ∷ [])
        (print_line-Gives k o delivers (command_headline command))
        (Gives-append k (print_buffers expand o bufs)
          (restores_signal sigchld ∷ print_line o line_feed) (expanded expand bufs) (line_feed ∷ [])
          (print_buffers-Gives bufs) (print_line-Gives k o delivers line_feed))

  output_backtrace-Gives :
      (show_ptr : ℕ → Text) (sigchld : ℕ) (r : Report) (src : Sources) (entries : List ℕ)
      → Gives k
          (output_backtrace expand show_ptr sigchld r src entries o)
          (dump_lines expand show_ptr r src entries)
  unfolding output_backtrace dump_lines
  output_backtrace-Gives show_ptr sigchld r src entries =
      Gives-append k _ _ (report_lines r) _ (print_lines-Gives k o delivers (report_lines r)) (
        Gives-append k _ _ _ _ (output_cmd-Gives sigchld (codes "ps") src.ps) (
          Gives-append k _ _ _ _ (output_file-Gives (codes "/proc/meminfo") src.meminfo) (
            Gives-append k _ _ _ _ (output_file-Gives (proc_file r.pid (codes "/stat")) src.stat) (
              Gives-append k _ _ _ _
                (output_file-Gives (proc_file r.pid (codes "/maps")) src.maps_file)
                (Gives-append k _ _ (thick_rule ∷ title ∷ thick_rule ∷ star ∷ []) _
                  (print_lines-Gives k o delivers (thick_rule ∷ title ∷ thick_rule ∷ star ∷ []))
                  (Gives-append k _ _ (frame_lines show_ptr 0 entries)
                    (star ∷ thick_rule ∷ title ∷ thick_rule ∷ [])
                    (print_lines-Gives k o delivers (frame_lines show_ptr 0 entries))
                    (print_lines-Gives k o delivers
                      (star ∷ thick_rule ∷ title ∷ thick_rule ∷ []))))))))

-- Closing gives nothing to a file.
fini-received :
    (k : Sink) (o : Outputs) (s : ℕ) → received k ((output_fini o).1 ++ defaults_signal s ∷ []) ≡ []
unfolding output_fini received
fini-received k o s =
    go (ltb_ℤ minus_one o.gbl_fd) o.gbl_params.filep (ltb_ℤ minus_one o.gbl_params.fd)
  where
    go :
        (file : Bool) (filep : Option ℕ) (fd : Bool)
        → received k (
            ((if file then closes o.gbl_fd ∷ [] else [])
              ++ ((elim filep as (λ _. Effects) [ none ↦ [] | some q ↦ fcloses q ∷ [] ])
                  ++ ((if fd then closes o.gbl_params.fd ∷ [] else []) ++ syncs ∷ [])))
            ++ defaults_signal s ∷ [])
          ≡ []
    go true none true = refl
    go true none false = refl
    go true (some q) true = refl
    go true (some q) false = refl
    go false none true = refl
    go false none false = refl
    go false (some q) true = refl
    go false (some q) false = refl

-- A sink that the lines come through to, once the file is open, is given exactly those lines of the dump
-- that are shorter than 255 bytes, in their order, if the backtrace comes to its end inside its buffer.
pub crash_handler-dump_lines :
    (expand : Text → Option Text) (show_ptr : ℕ → Text) (sigchld : ℕ) (maps : List PmapLine)
    (mem : ℕ → ℕ) (fuel pc ra sp : ℕ) (opened : ℤ × ℤ) (r : Report) (src : Sources) (c : Crash)
    (gbl_fd : ℤ) (entries : List ℕ)
    → create_global_backtrace maps mem fuel pc ra sp c ≡ some entries
    → length entries ≤ c.backtrace_room
    → (after : Crash × ℤ) × (es : Effects) × (crash_handler expand show_ptr sigchld maps mem fuel pc
          ra sp opened r src c gbl_fd
        ≡ some (after, es))
      × ((k : Sink)
          → Delivers k (output_init opened (record { gbl_params = c.gbl_params; gbl_fd = gbl_fd }))
          → received k es ≡ short (dump_lines expand show_ptr r src entries))
unfolding crash_handler
crash_handler-dump_lines expand show_ptr sigchld maps mem fuel pc ra sp opened r src c gbl_fd
      entries ends fits =
    let o = output_init opened (record { gbl_params = c.gbl_params; gbl_fd = gbl_fd }) in
    let closed = output_fini o in
    let room : leb (length entries) c.backtrace_room ≡ true = ground (arith, fits) in
    let dump = output_backtrace expand show_ptr sigchld r src entries o in
    (
      (record c { gbl_params = closed.0.gbl_params }, closed.0.gbl_fd),
      dump ++ (closed.1 ++ defaults_signal r.signo ∷ []),
      rw (crash_handler, ends, room) refl,
      λ k delivers.
          received-append k dump (closed.1 ++ defaults_signal r.signo ∷ [])
          ∙ ap (λ l. received k dump ++ l) (fini-received k o r.signo)
          ∙ append-nil (received k dump)
          ∙ output_backtrace-Gives expand k o delivers show_ptr sigchld r src entries,
    )
