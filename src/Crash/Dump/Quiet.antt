-- ===== src/Crash/Dump/Quiet.antt =====
-- Which parts of a dump have effects on the signals: only `outputCmd`.
use libmisc.Base.{
  ℕ, ◌-◌, ◌≡◌, refl, ap, ◌∙◌, inl, inr, Bool, true, false, Option, none, some, List, [], ◌∷◌, ◌++◌,
  ltb, if◌then◌else◌, length, Bool-cases,
}
use libmisc.Base.Int.{minus_one, eqb_ℤ, ltb_ℤ}
use libmisc.Base.Text.{Text}
use libmisc.Crash.Output.{max_line_len}
use libmisc.Crash.Dump.Shown.{command_headline, file_headline}
use libmisc.Crash.Dump.Signals.{signals, quiet}
use libmisc.Crash.Dump.Report.{print_lines}
use libmisc.Crash.Dump.{
  writes, fwrites, closes, fcloses, syncs, runs, defaults_signal, restores_signal, Effects, Outputs,
  to_file, to_filep, to_fd, print_line, print_format, print_buffers, output_file, output_cmd,
  output_fini, Input, line_feed,
}

print_line-signals : (o : Outputs) (line : Text) → signals (print_line o line) ≡ []
unfolding print_line to_file to_filep to_fd signals
print_line-signals o line = elim (Bool-cases (ltb (length line) (max_line_len - 1))) [
  | inl fits ↦
      rw
        (
          fits,
          quiet (to_file o line) (to_filep o line ++ to_fd o line)
              (file o.gbl_params.filename (eqb_ℤ o.gbl_fd minus_one)),
          quiet (to_filep o line) (to_fd o line) (filep o.gbl_params.filep),
        )
        (fd (eqb_ℤ o.gbl_params.fd minus_one))
  | inr long ↦ rw long refl
]
  where
    file :
        (f : Option Text) (closed : Bool)
        → signals (elim f as (λ _. Effects) [
          | none ↦ []
          | some name ↦ if closed then [] else writes o.gbl_fd line ∷ []
        ])
          ≡ []
    file none closed = refl
    file (some name) true = refl
    file (some name) false = refl

    filep :
        (q : Option ℕ)
        → signals (elim q as (λ _. Effects) [ none ↦ [] | some p ↦ fwrites p line ∷ [] ]) ≡ []
    filep none = refl
    filep (some p) = refl

    fd : (closed : Bool) → signals (if closed then [] else writes o.gbl_params.fd line ∷ []) ≡ []
    fd true = refl
    fd false = refl

-- A line in front of other effects.
line_first :
    (o : Outputs) (line : Text) (es : Effects) → signals (print_line o line ++ es) ≡ signals es
line_first o line es = quiet (print_line o line) es (print_line-signals o line)

pub print_lines-signals : (o : Outputs) (lines : List Text) → signals (print_lines o lines) ≡ []
unfolding print_lines signals
print_lines-signals o [] = refl
print_lines-signals o (line ∷ lines) =
    line_first o line (print_lines o lines) ∙ print_lines-signals o lines

pub output_fini-signals : (o : Outputs) → signals (output_fini o).1 ≡ []
unfolding output_fini signals
output_fini-signals o =
    go (ltb_ℤ minus_one o.gbl_fd) o.gbl_params.filep (ltb_ℤ minus_one o.gbl_params.fd)
  where
    go :
        (file : Bool) (filep : Option ℕ) (fd : Bool)
        → signals (
            (if file then closes o.gbl_fd ∷ [] else [])
            ++ ((elim filep as (λ _. Effects) [ none ↦ [] | some q ↦ fcloses q ∷ [] ])
                ++ ((if fd then closes o.gbl_params.fd ∷ [] else []) ++ syncs ∷ [])))
          ≡ []
    go true none true = refl
    go true none false = refl
    go true (some q) true = refl
    go true (some q) false = refl
    go false none true = refl
    go false none false = refl
    go false (some q) true = refl
    go false (some q) false = refl

module _ (expand : Text → Option Text) (o : Outputs) where
  print_buffers-signals : (bufs : List Text) → signals (print_buffers expand o bufs) ≡ []
  unfolding print_buffers print_format signals
  print_buffers-signals [] = refl
  print_buffers-signals (buf ∷ bufs) =
      quiet (print_format expand o buf) (print_buffers expand o bufs) (go (expand buf))
      ∙ print_buffers-signals bufs
    where
      go :
          (m : Option Text)
          → signals (elim m as (λ _. Effects) [ none ↦ [] | some line ↦ print_line o line ]) ≡ []
      go none = refl
      go (some line) = print_line-signals o line

  pub output_file-signals :
      (file : Text) (input : Input) → signals (output_file expand o file input) ≡ []
  unfolding output_file signals
  output_file-signals file none = line_first o (file_headline file) []
  output_file-signals file (some bufs) =
      line_first o (file_headline file) (print_buffers expand o bufs ++ print_line o line_feed)
      ∙ quiet (print_buffers expand o bufs) (print_line o line_feed) (print_buffers-signals bufs)
      ∙ print_line-signals o line_feed

  -- The effects of a command on the signals.
  abbrev pub around : ℕ → Text → Input → Effects
  around sigchld command none = defaults_signal sigchld ∷ []
  around sigchld command (some bufs) =
      defaults_signal sigchld ∷ runs command ∷ restores_signal sigchld ∷ []

  pub output_cmd-signals :
      (sigchld : ℕ) (command : Text) (input : Input)
      → signals (output_cmd expand sigchld o command input) ≡ around sigchld command input
  unfolding output_cmd signals
  output_cmd-signals sigchld command none =
      line_first o (command_headline command) (defaults_signal sigchld ∷ [])
  output_cmd-signals sigchld command (some bufs) =
      let rest = restores_signal sigchld ∷ print_line o line_feed in
      line_first o (command_headline command)
        (defaults_signal sigchld ∷ runs command ∷ (print_buffers expand o bufs ++ rest))
      ∙ ap (λ l. defaults_signal sigchld ∷ runs command ∷ l)
          (quiet (print_buffers expand o bufs) rest (print_buffers-signals bufs)
            ∙ ap (λ l. restores_signal sigchld ∷ l) (print_line-signals o line_feed))
