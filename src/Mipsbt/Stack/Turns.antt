-- ===== src/Mipsbt/Stack/Turns.antt =====
-- A turn of the loop of `mips_backtrace` at each kind of instruction.
use libmisc.Base.{
  ℕ, ◌/◌, ◌%◌, ◌^◌, ◌≡◌, refl, inl, inr, ◌⊎◌, true, false, List, ◌==◌, Bool-cases, arith,
}
use libmisc.Mipsbt.{
  PmapLine, regular_addr, previous, sign_extended, Walk, turn, decode, jump_to_caller,
}
use libmisc.Mipsbt.Stack.{
  endless, moves_sp, saves_ra, moves_up, frame_size, makes_frame, is_plain, At,
}

module _ (maps : List PmapLine) (mem : ℕ → ℕ) (size : ℕ) (w : Walk) where
  -- Away from the end, a turn decodes the instruction.
  turn-decode :
      regular_addr maps w.addr ≡ true
      → (mem w.addr == endless) ≡ false
      → turn maps mem size w ≡ decode maps mem size (mem w.addr / 2 ^ 16) (mem w.addr % 2 ^ 16) w
  unfolding turn
  turn-decode regular other = rw (turn, regular, other) refl

  pub turn-plain :
      At maps mem is_plain w.addr
      → turn maps mem size w ≡ (true, record w { addr = previous w.addr })
  unfolding decode
  turn-plain (regular, plain) =
      let word = mem w.addr in
      let other : (word == endless) ≡ false = ground (arith, plain) in
      rw (turn-decode regular other) (elim (Bool-cases (moves_sp word)) [
        | inl moves ↦
            let up : moves_up word ≡ true = ground (arith, plain, moves) in
            rw (decode, moves, up) refl
        | inr stays ↦
            let keeps : saves_ra word ≡ false = ground (arith, plain, stays) in
            rw (decode, stays, keeps) refl
      ])

  pub turn-saves :
      At maps mem saves_ra w.addr
      → turn maps mem size w ≡ (
        true,
        record w { addr = previous w.addr; ra_offset = sign_extended (mem w.addr % 2 ^ 16) },
      )
  unfolding decode
  turn-saves (regular, saves) =
      let word = mem w.addr in
      let other : (word == endless) ≡ false = ground (arith, saves) in
      let stays : moves_sp word ≡ false = ground (arith, saves) in
      rw (turn-decode regular other, decode, stays, saves) refl

  pub turn-makes_frame :
      At maps mem makes_frame w.addr
      → turn maps mem size w ≡ jump_to_caller maps mem size (frame_size (mem w.addr)) w
  unfolding decode
  turn-makes_frame (regular, makes) =
      let word = mem w.addr in
      let other : (word == endless) ≡ false = ground (arith, makes) in
      let moves : moves_sp word ≡ true = ground (arith, makes) in
      let down : moves_up word ≡ false = ground (arith, makes) in
      rw (turn-decode regular other, decode, moves, down) refl

  pub turn-halts :
      (regular_addr maps w.addr ≡ false) ⊎ (mem w.addr ≡ endless)
      → turn maps mem size w ≡ (false, w)
  unfolding turn
  turn-halts (inl outside) = rw (turn, outside) refl
  turn-halts (inr end) = elim (Bool-cases (regular_addr maps w.addr)) [
    | inl regular ↦ rw (turn, regular, end) refl
    | inr outside ↦ rw (turn, outside) refl
  ]
