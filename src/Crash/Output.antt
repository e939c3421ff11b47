-- ===== src/Crash/Output.antt =====
-- The output of the crash handler to its destinations.
use libmisc.Base.{
  ℕ, zero, suc, ◌+◌, ◌-◌, Bool, false, Option, none, some, [], ◌++◌, ◌==◌, ltb, if◌then◌else◌,
  length, take,
}
use libmisc.Base.Int.{ℤ, pos, negsuc}
use libmisc.Base.Text.{Text}

-- The results of the calls of `write`, one after another: the bytes that are taken, or an error.
abbrev pub Answers : Type 0
Answers = ℕ → Option ℕ

-- The loop of `blockingWrite` from a call on: the bytes that are counted, and those that the file
-- gets. `offset` stays 0.
unfoldable pub write_loop : Answers → ℕ → ℕ → Text → ℕ → Option (ℕ × Text)
write_loop answers fuel call str zero = some (0, [])
write_loop answers zero call str (suc bytes) = none
write_loop answers (suc fuel) call str (suc bytes) = elim (answers call) [
  | none ↦ some (0, [])
  | some n ↦
      let rest = write_loop answers fuel (suc call) str (suc bytes - n) in
      if n == 0 then some (0, []) else elim rest [
        | none ↦ none
        | some (total, received) ↦ some (n + total, take n str ++ received)
      ]
]

-- `blockingWrite`
unfoldable pub blocking_write : Answers → Text → ℕ → Option (ℕ × Text)
unfolding write_loop
blocking_write answers str bytes = write_loop answers bytes 0 str bytes

-- A destination of `outputPrintf`: what the calls of `write` or `fwrite` will say.
pub record Destinations : Type 0 where
  pub file : Option Answers
  pub filep : Option Bool
  pub fd : Option Answers

-- The number of bytes that a descriptor was given, 0 where it is closed.
unfoldable pub sent : Option Answers → Text → Option ℕ
unfolding blocking_write
sent none line = some 0
sent (some answers) line = elim (blocking_write answers line (length line)) [
  | none ↦ none
  | some (total, received) ↦ some total
]

abbrev pub max_line_len : ℕ
max_line_len = 256

-- `outputPrintf` of a line that is formatted to the text, or fails to be: its result.
unfoldable pub output_printf : Destinations → Option Text → Option ℤ
unfolding sent
output_printf d none = some (negsuc 0)
output_printf d (some line) =
    if ltb (length line) (max_line_len - 1)
    then elim (sent d.file line) [
      | none ↦ none
      | some to_file ↦ elim (sent d.fd line) [
        | none ↦ none
        | some to_fd ↦ some (
            if to_fd == 0
            then elim d.filep [
              | some false ↦ negsuc 2
              | _ ↦ if to_file == 0 then pos 0 else negsuc 1
            ]
            else negsuc 3)
      ]
    ]
    else some (negsuc 0)
