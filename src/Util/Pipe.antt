-- ===== src/Util/Pipe.antt =====
-- What is read from a command.
use mathlib.Core.List.{append-nil, append_assoc}
use mathlib.Core.Path.{subst}
use libmisc.Base.{
  ℕ, zero, suc, ◌+◌, ◌-◌, ◌≤◌, ◌<◌, ◌≡◌, refl, sym, ap, inl, inr, Bool, true, false, none, some,
  List, [], ◌∷◌, ◌++◌, ◌==◌, ==_iff, ◌||◌, ◌&&◌, map, ltb, ltb→ge, if◌then◌else◌, Bool-cases,
  length, length-append, take, arith,
}
use libmisc.Base.Int.{pos}
use libmisc.Base.Text.{Text, truncated}
use libmisc.Base.Text.Take.{take-append, take_all, take-append_full}
use libmisc.Util.{pipe_loop, pipe_cmd, pipe_ex_loop, pipe_cmd_ex}

-- The whole output of a command.
unfoldable pub whole : List Text → Text
whole [] = []
whole (buf ∷ bufs) = buf ++ whole bufs

-- Some buffer is read when more than `maxlen` bytes were counted before it.
unfoldable pub overruns : ℕ → ℕ → List Text → Bool
overruns maxlen len [] = false
overruns maxlen len (buf ∷ bufs) = ltb maxlen len || overruns maxlen (len + length buf) bufs

-- The output behind one more buffer.
next_output :
    (maxlen : ℕ) (read buf : Text)
    → 0 < maxlen
    → length read ≤ maxlen
    → (if maxlen - length read == 0
        then take (maxlen - 1) read
        else take (length read) (take (maxlen - 1) read) ++ take (maxlen - length read - 1) buf)
      ≡ take (maxlen - 1) (read ++ buf)
next_output maxlen read buf some_room fits = elim (Bool-cases (maxlen - length read == 0)) [
  | inl filled ↦ rw filled (
      sym (
        take-append_full (maxlen - 1) read buf
          (omega (arith, (==_iff (maxlen - length read) 0).0 filled))))
  | inr unfilled ↦
      let shorter = not_zero (maxlen - length read) unfilled in
      let kept = take_all (maxlen - 1) read (omega (arith, shorter)) in
      rw
        (
          unfilled,
          kept,
          take_all (length read) read (omega arith),
          take-append (maxlen - 1) read buf,
          kept,
        )
        (ap (λ n. read ++ take n buf) (omega (arith, shorter)))
]
  where
    not_zero : (n : ℕ) → (n == 0) ≡ false → 0 < n
    not_zero n h = ground arith

take_nil : (n : ℕ) → take {A = ℕ} n [] ≡ []
take_nil zero = refl
take_nil (suc n) = refl

pipe_ex_loop-whole :
    (maxlen : ℕ) (read : Text) (bufs : List Text)
    → 0 < maxlen
    → pipe_ex_loop maxlen (length read) (take (maxlen - 1) read) bufs ≡ (
        if overruns maxlen (length read) bufs
        then none
        else some (length (read ++ whole bufs), take (maxlen - 1) (read ++ whole bufs)))
unfolding pipe_ex_loop whole truncated overruns
pipe_ex_loop-whole maxlen read [] some_room = rw (append-nil read) refl
pipe_ex_loop-whole maxlen read (buf ∷ bufs) some_room =
    elim (Bool-cases (ltb maxlen (length read))) [
      | inl over ↦ rw (pipe_ex_loop, overruns, over) refl
      | inr room ↦
          let step = next_output maxlen read buf some_room (ltb→ge maxlen (length read) room) in
          rw
            (
              pipe_ex_loop,
              overruns,
              room,
              step,
              sym (length-append read buf),
              sym (append_assoc read buf (whole bufs)),
            )
            (pipe_ex_loop-whole maxlen (read ++ buf) bufs some_room)
    ]

-- With a buffer of `maxlen` bytes, one at least, `misc_pipeCmd_ex` returns the length of the whole
-- output of the command and leaves the front of it that fits, unless the command gives more after
-- `maxlen` bytes were exceeded: then the size for `snprintf` is negative.
pub pipe_cmd_ex-whole :
    (bufs : List Text) (maxlen : ℕ)
    → 0 < maxlen
    → pipe_cmd_ex (some bufs) maxlen ≡ (
        if overruns maxlen 0 bufs
        then none
        else some (pos (length (whole bufs)), take (maxlen - 1) (whole bufs)))
unfolding pipe_cmd_ex
pipe_cmd_ex-whole bufs maxlen some_room =
    let result =
      if overruns maxlen 0 bufs
      then none
      else some (length (whole bufs), take (maxlen - 1) (whole bufs)) in
    let loop =
      subst (λ t. pipe_ex_loop maxlen 0 t bufs ≡ result) (take_nil (maxlen - 1))
        (pipe_ex_loop-whole maxlen [] bufs some_room) in
    elim (Bool-cases (overruns maxlen 0 bufs)) [
      | inl over ↦ rw (pipe_cmd_ex, loop, over) refl
      | inr fine ↦ rw (pipe_cmd_ex, loop, fine) refl
    ]

-- Every `realloc` gave room.
unfoldable pub all_room : List (Bool × Text) → Bool
all_room [] = true
all_room ((room, buf) ∷ bufs) = room && all_room bufs

pipe_loop-whole :
    (output : Text) (bufs : List (Bool × Text))
    → pipe_loop output bufs
      ≡ (if all_room bufs then some (output ++ whole (map (λ b. b.1) bufs)) else none)
unfolding pipe_loop whole all_room
pipe_loop-whole output [] = ap some (sym (append-nil output))
pipe_loop-whole output ((false, buf) ∷ bufs) = refl
pipe_loop-whole output ((true, buf) ∷ bufs) =
    rw (sym (append_assoc output buf (whole (map (λ b. b.1) bufs))))
      (pipe_loop-whole (output ++ buf) bufs)

-- `misc_pipeCmd` leaves the whole output of the command, or `NULL` if some `realloc` failed.
pub pipe_cmd-whole :
    (bufs : List (Bool × Text))
    → pipe_cmd (some bufs) ≡ (if all_room bufs then some (whole (map (λ b. b.1) bufs)) else none)
unfolding pipe_cmd
pipe_cmd-whole bufs = pipe_loop-whole [] bufs
