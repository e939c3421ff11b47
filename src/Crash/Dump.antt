-- ===== src/Crash/Dump.antt =====
-- The dump that `crash_handler` writes: the report on the signal, the output of `ps`, three files of
-- `/proc`, and the frames of the backtrace. What is done to the files is a list of effects.
pub mod Report
pub mod Shown
pub mod Handler
pub mod Close
pub mod Signals
pub mod Quiet
pub mod Actions
pub mod Sinks
pub mod Ends
mod Tests
use libmisc.Base.{
  ℕ, zero, suc, ◌+◌, ◌-◌, Bool, true, false, not, ◌&&◌, Option, none, some, List, [], ◌∷◌, ◌++◌,
  ◌==◌, ltb, if◌then◌else◌, length,
}
use libmisc.Base.Int.{ℤ, pos, negsuc, minus_one, ltb_ℤ, eqb_ℤ}
use libmisc.Base.Text.{Text, codes, decimal, truncated}
use libmisc.Base.Text.Format.{decimal_int, padded, hex_08}
use libmisc.Crash.{Crash, CrashParameters, create_global_backtrace}
use libmisc.Crash.Output.{max_line_len}

-- What is done to the world: `blockingWrite` to a descriptor, `fwrite` to a file, and so on.
pub data Effect : Type 0 where
  writes : ℤ → Text → Effect
  fwrites : ℕ → Text → Effect
  closes : ℤ → Effect
  fcloses : ℕ → Effect
  syncs : Effect
  runs : Text → Effect
  defaults_signal restores_signal : ℕ → Effect

abbrev pub Effects : Type 0
Effects = List Effect

-- `gbl_params` and `gbl_fd`.
pub record Outputs : Type 0 where
  pub gbl_params : CrashParameters
  pub gbl_fd : ℤ

-- The three destinations of a line in `outputPrintf`.
unfoldable pub to_file : Outputs → Text → Effects
to_file o line = elim o.gbl_params.filename [
  | none ↦ []
  | some name ↦ if eqb_ℤ o.gbl_fd minus_one then [] else writes o.gbl_fd line ∷ []
]

unfoldable pub to_filep : Outputs → Text → Effects
to_filep o line = elim o.gbl_params.filep [ none ↦ [] | some p ↦ fwrites p line ∷ [] ]

unfoldable pub to_fd : Outputs → Text → Effects
to_fd o line = if eqb_ℤ o.gbl_params.fd minus_one then [] else writes o.gbl_params.fd line ∷ []

-- `outputPrintf` of a line that is formatted to the text.
unfoldable pub print_line : Outputs → Text → Effects
unfolding to_file to_filep to_fd
print_line o line =
    if ltb (length line) (max_line_len - 1)
    then to_file o line ++ (to_filep o line ++ to_fd o line)
    else []

-- `outputInit`, with the results of the two calls of `open`.
unfoldable pub output_init : ℤ × ℤ → Outputs → Outputs
output_init (appending, created) o = elim o.gbl_params.filename [
  | none ↦ o
  | some name ↦ record o {
    gbl_fd =
        if ltb_ℤ appending (pos 0)
        then (if ltb_ℤ created (pos 0) then minus_one else created)
        else appending;
  }
]

-- `outputFini`
unfoldable pub output_fini : Outputs → Outputs × Effects
output_fini o = (
  record {
    gbl_params = record (o.gbl_params) { fd = minus_one; filep = none };
    gbl_fd = minus_one;
  },
  (if ltb_ℤ minus_one o.gbl_fd then closes o.gbl_fd ∷ [] else [])
      ++ ((elim o.gbl_params.filep [ none ↦ [] | some p ↦ fcloses p ∷ [] ])
          ++ ((if ltb_ℤ minus_one o.gbl_params.fd then closes o.gbl_params.fd ∷ [] else [])
              ++ syncs ∷ [])),
)

abbrev pub line_feed : Text
line_feed = codes "\n"

-- What a file or a command gives: the buffers that `fgets` fills, or nothing if it cannot be opened.
abbrev pub Input : Type 0
Input = Option (List Text)

module _ (expand : Text → Option Text) where
  -- `outputPrintf(buf)`: the buffer is the format, and `expand` what `vsnprintf` makes of it.
  unfoldable pub print_format : Outputs → Text → Effects
  unfolding print_line
  print_format o buf = elim (expand buf) [ none ↦ [] | some line ↦ print_line o line ]

  -- The loops over a file and over the output of a command.
  unfoldable pub print_buffers : Outputs → List Text → Effects
  unfolding print_format
  print_buffers o [] = []
  print_buffers o (buf ∷ bufs) = print_format o buf ++ print_buffers o bufs

  -- `outputFile`
  unfoldable pub output_file : Outputs → Text → Input → Effects
  unfolding print_line print_buffers
  output_file o file input =
      print_line o (codes "mCrash dumping file: " ++ (file ++ line_feed))
      ++ elim input [ none ↦ [] | some bufs ↦ print_buffers o bufs ++ print_line o line_feed ]

  -- `outputCmd`; `sigchld` is the number of the signal.
  unfoldable pub output_cmd : ℕ → Outputs → Text → Input → Effects
  unfolding print_line print_buffers
  output_cmd sigchld o command input =
      print_line o (codes "mCrash dumping command: " ++ (command ++ line_feed))
      ++ defaults_signal sigchld ∷ elim input [
        | none ↦ []
        | some bufs ↦
            runs command
            ∷ (print_buffers o bufs ++ restores_signal sigchld ∷ print_line o line_feed)
      ]
