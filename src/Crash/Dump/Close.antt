-- ===== src/Crash/Dump/Close.antt =====
-- The outputs behind a dump.
use libmisc.Base.{
  ◌-◌, ◌≡◌, refl, inl, inr, Option, none, some, [], ◌∷◌, ◌++◌, ltb, if◌then◌else◌, length,
  Bool-cases,
}
use libmisc.Base.Int.{minus_one, eqb_ℤ}
use libmisc.Base.Text.{Text}
use libmisc.Crash.Output.{max_line_len}
use libmisc.Crash.Dump.{writes, Effects, Outputs, to_file, to_filep, to_fd, print_line, output_fini}

-- Behind `outputFini`, `outputPrintf` writes nothing, whatever was open.
pub output_fini-silent : (o : Outputs) (line : Text) → print_line (output_fini o).0 line ≡ []
unfolding print_line output_fini to_file to_filep to_fd
output_fini-silent o line = elim (Bool-cases (ltb (length line) (max_line_len - 1))) [
  | inl fits ↦ rw fits (go o.gbl_params.filename)
  | inr long ↦ rw long refl
]
  where
    go :
        (f : Option Text)
        → elim f as (λ _. Effects) [
          | none ↦ []
          | some name ↦ if eqb_ℤ minus_one minus_one then [] else writes minus_one line ∷ []
        ]
            ++ ([] ++ [])
          ≡ []
    go none = refl
    go (some name) = refl
