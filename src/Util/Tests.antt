-- ===== src/Util/Tests.antt =====
-- The theorems at a command of two lines.
use libmisc.Base.{
  ◌==◌, ◌≤◌, ◌↔◌, ℕ, ◌-◌, ◌<◌, ◌≡◌, refl, Bool, true, false, Option, none, some, List, [], ◌∷◌,
  ◌++◌, map, if◌then◌else◌, length, take, arith,
}
use libmisc.Base.Int.{pos}
use libmisc.Base.Text.{Text, codes}
use libmisc.Base.Text.Scan.{scan_int}
use libmisc.Util.Console.{print_console, print_console_overflow}
use libmisc.Util.Pid.{proc_ep, proc_ep-again}
use libmisc.Util.{pipe_cmd_ex}
use libmisc.Util.Pipe.{whole, overruns, pipe_cmd_ex-whole}

abbrev two_lines : List Text
two_lines = codes "ab" ∷ codes "cd" ∷ []

-- The text is cut off, the length is not.
cut_off : pipe_cmd_ex (some two_lines) 4 ≡ some (pos 4, codes "abc")
unfolding pipe_cmd_ex libmisc.Base.Text.truncated
cut_off = refl

pipe_cmd_ex-whole_example : pipe_cmd_ex (some two_lines) 1 ≡ (
    if overruns 1 0 two_lines
    then none
    else some (pos (length (whole two_lines)), take 0 (whole two_lines)))
pipe_cmd_ex-whole_example = pipe_cmd_ex-whole two_lines 1 (omega arith)

print_console_overflow_example : (print_console (codes "hi") ≡ none) ↔ (997 ≤ length (codes "hi"))
print_console_overflow_example = print_console_overflow (codes "hi")

-- A process kills the one that stands in the pid file, and its own group if that is 0.
kills_group : (proc_ep (some (codes "0\n")) true 77).0 ≡ some (pos 0)
unfolding proc_ep scan_int libmisc.Base.Text.read_digits
kills_group = refl

proc_ep-again_example :
    (proc_ep (proc_ep none true 4711).1 true 42).0 ≡ (if 4711 == 42 then none else some (pos 4711))
proc_ep-again_example = proc_ep-again none true 4711 42 (omega arith)
