-- ===== src/Mipsbt/Stack/Ends.antt =====
-- Where the loop of `mips_backtrace` ends: jumps to a caller, and turns in a row.
use libmisc.Base.{
  ℕ, zero, suc, ◌+◌, ◌-◌, ◌%◌, ◌^◌, ◌≤◌, ◌<◌, ◌≡◌, ◌≢◌, refl, Bool, true, false, not, ◌&&◌, ◌||◌,
  some, List, [], ◌∷◌, ◌++◌, ◌==◌, ne→==, ltb, if◌then◌else◌, arith, length,
}
use libmisc.Mipsbt.{
  PmapLine, regular_addr, add_32, previous, sign_extended, Walk, Turn, turn, jump_to_caller,
  walk_loop,
}
use libmisc.Mipsbt.Stack.{frame_size, Passes, here, back}
use libmisc.Mipsbt.Stack.Turns.{turn-plain}

pub sign_extended_ne : (low : ℕ) → low ≢ 0 → sign_extended low ≢ 0
sign_extended_ne low h = ground (arith, h)

pub frame_size_ne : (word : ℕ) → word % 2 ^ 16 ≢ 0 → frame_size word ≢ 0
frame_size_ne word h = ground (arith, h)

module _ (maps : List PmapLine) (mem : ℕ → ℕ) (size : ℕ) where
  -- The walk behind a jump, and whether it goes on.
  abbrev pub jumped : List ℕ → ℕ → ℕ → Turn
  jumped buffer ret sp = (
    ltb (suc (length buffer)) (size - 1),
    record { addr = ret; ra = ret; sp = sp; ra_offset = 0; buffer = buffer ++ ret ∷ [] },
  )

  pub jump-saved :
      (st : ℕ) (w : Walk)
      → st ≢ 0
      → w.ra_offset ≢ 0
      → regular_addr maps (add_32 w.sp w.ra_offset) ≡ true
      → jump_to_caller maps mem size st w
        ≡ jumped w.buffer (mem (add_32 w.sp w.ra_offset)) (add_32 w.sp st)
  unfolding jump_to_caller
  jump-saved st w h k regular =
      rw (jump_to_caller, ne→== st 0 h, ne→== w.ra_offset 0 k, regular)
        (go (length w.buffer - 1 == 0))
    where
      go :
          (first : Bool)
          → (if not first && (false || false)
              then (false, w)
              else jumped w.buffer (mem (add_32 w.sp w.ra_offset)) (add_32 w.sp st))
            ≡ jumped w.buffer (mem (add_32 w.sp w.ra_offset)) (add_32 w.sp st)
      go true = refl
      go false = refl

  pub jump-leaf :
      (st addr ra sp pc : ℕ)
      → regular_addr maps (add_32 sp 0) ≡ true
      → jump_to_caller maps mem size st
          (record { addr = addr; ra = ra; sp = sp; ra_offset = 0; buffer = pc ∷ [] })
        ≡ jumped (pc ∷ []) ra (add_32 sp st)
  unfolding jump_to_caller
  jump-leaf st addr ra sp pc regular = rw (jump_to_caller, regular) refl

  pub jump-unsaved :
      (st addr ra sp : ℕ) (buffer : List ℕ)
      → 2 ≤ length buffer
      → let w : Walk = record { addr = addr; ra = ra; sp = sp; ra_offset = 0; buffer = buffer } in
        jump_to_caller maps mem size st w ≡ (false, w)
  unfolding jump_to_caller
  jump-unsaved st addr ra sp buffer deep =
      let not_first : (length buffer - 1 == 0) ≡ false = ground (arith, deep) in
      rw (jump_to_caller, not_first) (go (st == 0) _ _)
    where
      go : (none : Bool) (x y : Turn) → (if none || true then x else y) ≡ x
      go true x y = refl
      go false x y = refl

  -- The loop ends with the buffer, on fuel for more than so many turns.
  unfoldable pub EndsWith : ℕ → Walk → List ℕ → Type 0
  EndsWith turns w buffer = (fuel : ℕ) → turns < fuel → walk_loop maps mem size fuel w ≡ some buffer

  -- A turn in front.
  pub EndsWith-turn :
      (turns : ℕ) (w w' : Walk) (buffer : List ℕ)
      → turn maps mem size w ≡ (true, w')
      → EndsWith turns w' buffer
      → EndsWith (suc turns) w buffer
  unfolding EndsWith walk_loop
  EndsWith-turn turns w w' buffer one rest zero enough = absurd (omega (arith, enough))
  EndsWith-turn turns w w' buffer one rest (suc fuel) enough =
      rw (walk_loop, one) (rest fuel (omega (arith, enough)))

  pub EndsWith-last :
      (turns : ℕ) (w w' : Walk) → turn maps mem size w ≡ (false, w') → EndsWith turns w w'.buffer
  unfolding EndsWith walk_loop
  EndsWith-last turns w w' one zero enough = absurd (omega (arith, enough))
  EndsWith-last turns w w' one (suc fuel) enough = rw (walk_loop, one) refl

  -- Plain words in front.
  pub EndsWith-Passes :
      (turns n a b ra sp off : ℕ) (entries buffer : List ℕ)
      → Passes maps mem a n b
      → EndsWith turns
          (record { addr = b; ra = ra; sp = sp; ra_offset = off; buffer = entries })
          buffer
      → EndsWith
          (turns + n)
          (record { addr = a; ra = ra; sp = sp; ra_offset = off; buffer = entries })
          buffer
  unfolding EndsWith
  EndsWith-Passes turns n a b ra sp off entries buffer (here _) rest =
      λ fuel enough. rest fuel (omega (arith, enough))
  EndsWith-Passes turns n a b ra sp off entries buffer (back _ m _ at more) rest =
      let w : Walk = record { addr = a; ra = ra; sp = sp; ra_offset = off; buffer = entries } in
      let behind = EndsWith-Passes turns m (previous a) b ra sp off entries buffer more rest in
      λ fuel enough.
        EndsWith-turn (turns + m) w _ buffer (turn-plain maps mem size w at) behind fuel
          (omega (arith, enough))

  pub EndsWith-weaken :
      (t t' : ℕ) (w : Walk) (buffer : List ℕ) → t ≤ t' → EndsWith t w buffer → EndsWith t' w buffer
  unfolding EndsWith
  EndsWith-weaken t t' w buffer le rest fuel enough = rest fuel (omega (arith, le, enough))
