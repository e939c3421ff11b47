-- ===== src/Util.antt =====
-- The commands of misc_util.c whose output is read. A command is the lines that `fgets` gives, which
-- fit its buffer, or `none` if `popen` fails; a text is without its terminator.
pub mod Pipe
pub mod Console
pub mod Pid
mod Tests
use libmisc.Base.{
  ℕ, ◌+◌, ◌-◌, Bool, Option, none, some, List, [], ◌∷◌, ◌++◌, ltb, ◌==◌, if◌then◌else◌, length,
  take,
}
use libmisc.Base.Int.{ℤ, pos, minus_one}
use libmisc.Base.Text.{Text, truncated}

-- The loop of `misc_pipeCmd`, where `realloc` answers as in the list: `NULL`, or room.
unfoldable pub pipe_loop : Text → List (Bool × Text) → Option Text
pipe_loop output [] = some output
pipe_loop output ((room, buf) ∷ bufs) =
    let rest = pipe_loop (output ++ buf) bufs in if room then rest else none

-- `misc_pipeCmd`: what `*output` is left at.
unfoldable pub pipe_cmd : Option (List (Bool × Text)) → Option Text
unfolding pipe_loop
pipe_cmd none = some []
pipe_cmd (some bufs) = pipe_loop [] bufs

-- The loop of `misc_pipeCmd_ex`: `len` and the text of `output`; `none` where `snprintf` is called
-- with a negative size.
unfoldable pub pipe_ex_loop : ℕ → ℕ → Text → List Text → Option (ℕ × Text)
pipe_ex_loop maxlen len output [] = some (len, output)
pipe_ex_loop maxlen len output (buf ∷ bufs) =
    let left = maxlen - len in
    let output' = if left == 0 then output else take len output ++ truncated left buf in
    let rest = pipe_ex_loop maxlen (len + length buf) output' bufs in
    if ltb maxlen len then none else rest

-- `misc_pipeCmd_ex`
unfoldable pub pipe_cmd_ex : Option (List Text) → ℕ → Option (ℤ × Text)
unfolding pipe_ex_loop
pipe_cmd_ex none maxlen = some (minus_one, [])
pipe_cmd_ex (some bufs) maxlen = elim (pipe_ex_loop maxlen 0 [] bufs) [
  | none ↦ none
  | some (len, output) ↦ some (pos len, output)
]
