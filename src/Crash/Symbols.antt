-- ===== src/Crash/Symbols.antt =====
-- The backtrace of misc_crash.c where it is built with glibc. What `backtrace` and `backtrace_symbols`
-- give is an argument.
use mathlib.Core.Option.{none-ne-some}
use libmisc.Base.{
  ℕ, suc, ◌≡◌, refl, ap, Bool, true, false, Option, none, some, List, [], ◌∷◌, ◌++◌, if◌then◌else◌,
  length, arith, arith,
}
use libmisc.Base.Int.{pos, eqb_ℤ}
use libmisc.Base.Text.{Text, codes, decimal}
use libmisc.Base.Text.Format.{padded}
use libmisc.Crash.{Crash}
use libmisc.Crash.Dump.{line_feed}
use libmisc.Crash.Dump.Report.{frame_lines}

module _ (backtrace : ℕ → List ℕ) (backtrace_symbols : List ℕ → Option (List Text)) where
  -- `createGlobalBacktrace`: the entries, and `gbl_backtraceSymbols` behind it.
  unfoldable pub create_backtrace_symbols : Crash → Option (List Text) → List ℕ × Option (List Text)
  create_backtrace_symbols c symbols =
      let entries = backtrace c.gbl_params.max_stack_depth in
      (
        entries,
        if eqb_ℤ c.gbl_params.use_backtrace_symbols (pos 0)
            then symbols
            else backtrace_symbols entries,
      )

-- The loop of `outputGlobalBacktrace` where there are symbols; `none` behind the end of their array.
unfoldable pub symbol_lines : ℕ → List ℕ → List Text → Option (List Text)
symbol_lines i [] symbols = some []
symbol_lines i (entry ∷ entries) [] = none
symbol_lines i (entry ∷ entries) (symbol ∷ symbols) = elim (symbol_lines (suc i) entries symbols) [
  | none ↦ none
  | some lines ↦ some (
      (codes "*      Frame " ++ (padded 2 (decimal i) ++ (codes ": " ++ (symbol ++ line_feed))))
      ∷ lines)
]

-- `outputGlobalBacktrace`: its lines.
unfoldable pub output_global_backtrace :
    (ℕ → Text) → List ℕ → Option (List Text) → Option (List Text)
unfolding symbol_lines
output_global_backtrace show_ptr entries none = some (frame_lines show_ptr 0 entries)
output_global_backtrace show_ptr entries (some symbols) = symbol_lines 0 entries symbols

-- As many lines as entries.
abbrev IsWhole : List ℕ → Option (List Text) → Type 0
IsWhole entries result =
    (lines : List Text) × (result ≡ some lines) × (length lines ≡ length entries)

symbol_lines-IsWhole :
    (i : ℕ) (entries : List ℕ) (symbols : List Text)
    → length symbols ≡ length entries
    → IsWhole entries (symbol_lines i entries symbols)
unfolding symbol_lines
symbol_lines-IsWhole i [] symbols same = ([], refl, refl)
symbol_lines-IsWhole i (entry ∷ entries) [] same = absurd (omega (arith, same))
symbol_lines-IsWhole i (entry ∷ entries) (symbol ∷ symbols) same =
    let rest = symbol_lines-IsWhole (suc i) entries symbols (omega (arith, same)) in
    rw (symbol_lines, rest.1) (_, refl, ap suc rest.2)

length-frame_lines :
    (show_ptr : ℕ → Text) (i : ℕ) (entries : List ℕ)
    → length (frame_lines show_ptr i entries) ≡ length entries
unfolding frame_lines
length-frame_lines show_ptr i [] = refl
length-frame_lines show_ptr i (entry ∷ entries) =
    ap suc (length-frame_lines show_ptr (suc i) entries)

-- Where `backtrace_symbols` gives a symbol for each entry, or NULL, the first backtrace is printed as a
-- line for each entry: no symbol behind the end of the array is read.
pub output_global_backtrace-IsWhole :
    (backtrace : ℕ → List ℕ) (backtrace_symbols : List ℕ → Option (List Text)) (show_ptr : ℕ → Text)
    (c : Crash)
    → ((entries : List ℕ) (symbols : List Text)
        → backtrace_symbols entries ≡ some symbols
        → length symbols ≡ length entries)
    → let made = create_backtrace_symbols backtrace backtrace_symbols c none in
      IsWhole made.0 (output_global_backtrace show_ptr made.0 made.1)
unfolding create_backtrace_symbols output_global_backtrace
output_global_backtrace-IsWhole backtrace backtrace_symbols show_ptr c documented =
    go (eqb_ℤ c.gbl_params.use_backtrace_symbols (pos 0)) (backtrace c.gbl_params.max_stack_depth)
  where
    printed :
        (entries : List ℕ) (symbols : Option (List Text))
        → ((s : List Text) → symbols ≡ some s → length s ≡ length entries)
        → IsWhole entries (output_global_backtrace show_ptr entries symbols)
    printed entries none h =
        unfold output_global_backtrace in
        (frame_lines show_ptr 0 entries, refl, length-frame_lines show_ptr 0 entries)
    printed entries (some symbols) h =
        unfold output_global_backtrace in symbol_lines-IsWhole 0 entries symbols (h symbols refl)

    go :
        (unset : Bool) (entries : List ℕ)
        → IsWhole entries (
            output_global_backtrace show_ptr entries
              (if unset then none else backtrace_symbols entries))
    go true entries = printed entries none (λ s e. absurd (none-ne-some s e))
    go false entries = printed entries (backtrace_symbols entries) (documented entries)
