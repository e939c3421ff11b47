-- ===== src/Util/Console.antt =====
-- `misc_system`, `misc_printConsole`, `misc_printFile` and `misc_selSleep`; a call's text is what its
-- format and arguments give.
use mathlib.Core.Option.{some-ne-none}
use libmisc.Base.{
  ℕ, ◌+◌, ◌≤◌, ◌≡◌, ◌↔◌, refl, inl, inr, Bool-cases, ltb→lt, ltb→ge, Bool, Option, none, some, ◌++◌,
  ltb, if◌then◌else◌, length, length-append, length-take, take, arith,
}
use libmisc.Base.Int.{ℤ, pos, minus_one}
use libmisc.Base.Text.{Text, codes, truncated}

abbrev pub cmdsz : ℕ
cmdsz = 1024

-- `misc_system`: the command that is run.
unfoldable pub misc_system : Text → Text
misc_system text = truncated cmdsz text

-- The command of `misc_printConsole`.
unfoldable pub console_command : Text → Text
console_command buf = codes "/bin/echo \"" ++ (buf ++ codes "\" > /dev/console")

-- `misc_printConsole`: the command that is run; `none` where `sprintf` writes behind the end of `buf2`.
unfoldable pub print_console : Text → Option Text
unfolding console_command
print_console text =
    let command = console_command (truncated cmdsz text) in
    if ltb (length command) cmdsz then some command else none

-- `misc_printFile`: the debug file behind the call, if it can be opened.
unfoldable pub print_file : Bool → Text → Text → Text
print_file opened file text = if opened then file ++ (text ++ codes "\n") else file

-- `misc_selSleep`, with the result of `select`.
unfoldable pub sel_sleep : Bool → ℤ
sel_sleep failed = if failed then minus_one else pos 0

length-console_command : (buf : Text) → length (console_command buf) ≡ length buf + 27
unfolding console_command
length-console_command buf = omega (arith, length-append buf (codes "\" > /dev/console"))

-- A command that is run or not.
checked_overflow :
    (command : Text)
    → ((if ltb (length command) cmdsz then some command else none) ≡ none)
      ↔ (cmdsz ≤ length command)
checked_overflow command = elim (Bool-cases (ltb (length command) cmdsz)) [
  | inl fits ↦ rw fits (
    λ h. absurd (some-ne-none command h),
    λ h. absurd (omega (arith, ltb→lt (length command) cmdsz fits, h)),
  )
  | inr over ↦ rw over (λ h. ltb→ge (length command) cmdsz over, λ h. refl)
]

-- `misc_printConsole` writes behind the end of its second buffer exactly if the text has 997 bytes or
-- more.
pub print_console_overflow : (text : Text) → (print_console text ≡ none) ↔ (997 ≤ length text)
unfolding print_console truncated
print_console_overflow text =
    let measure = length-console_command (take 1023 text) in
    let cut = length-take 1023 text in
    let over = checked_overflow (console_command (take 1023 text)) in
    (λ h. omega (arith, over.0 h, measure, cut), λ h. over.1 (omega (arith, measure, cut, h)))
