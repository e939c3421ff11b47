-- ===== src/Mipsbt/Halt.antt =====
-- The backtrace comes to an end, with a sound buffer.
use libmisc.Base.{
  ℕ, zero, suc, ◌+◌, ◌-◌, ◌*◌, ◌^◌, ◌/◌, ◌≤◌, ◌<◌, ◌≡◌, refl, inl, inr, ◌⊎◌, true, false, Option,
  some, List, [], ◌∷◌, ◌++◌, arith, length, length-append, Bool-cases, if◌then◌else◌, ltb, ltb→lt,
  ltb→ge,
}
use libmisc.Mipsbt.{PmapLine, regular_addr, Walk, Turn, turn, walk_loop, mips_backtrace, previous}
use libmisc.Mipsbt.Bounds.{
  IsTurn, stops, steps_back, jumps, turn-IsTurn, IsSound, IsGoing, IsSound-of_IsGoing, IsGoing-back,
  IsSound-jump, IsGoing-jump,
}

-- The turns that are left at most: one for each word below the walk, for each entry to come.
abbrev turns_left : ℕ → Walk → ℕ
turns_left size w = (size - length w.buffer) * 1_073_741_824 + w.addr / 4

length-snoc : (xs : List ℕ) (x : ℕ) → length (xs ++ x ∷ []) ≡ suc (length xs)
length-snoc xs x = omega (arith, length-append xs (x ∷ []))

previous_lt : (a : ℕ) → 4 ≤ a → a < 2 ^ 32 → previous a / 4 < a / 4
previous_lt a h small = omega (arith, h, small)

jump_lt :
    (size l l' a ra' : ℕ)
    → l' ≡ suc l
    → l < size
    → ra' < 2 ^ 32
    → (size - l') * 1_073_741_824 + ra' / 4 < (size - l) * 1_073_741_824 + a / 4
jump_lt size l l' a ra' longer room small = omega (arith, longer, room, small)

module _ (maps : List PmapLine) (mem : ℕ → ℕ) (size : ℕ) (words : (a : ℕ) → mem a < 2 ^ 32)
    (null_page : (a : ℕ) → a < 4 → regular_addr maps a ≡ false) where
  -- A run of the loop ends, with a sound buffer.
  Ends : Option (List ℕ) → Type 0
  Ends r = (buffer : List ℕ) × (r ≡ some buffer) × IsSound maps size buffer

  not_low : (a : ℕ) → regular_addr maps a ≡ true → 4 ≤ a
  not_low a regular = elim (Bool-cases (ltb a 4)) [
    | inl low ↦ absurd (ground (arith, regular, null_page a (ltb→lt a 4 low)))
    | inr high ↦ ltb→ge a 4 high
  ]

  ra_small : (ra ra' : ℕ) → ra < 2 ^ 32 → (ra' ≡ ra) ⊎ ((a : ℕ) × (ra' ≡ mem a)) → ra' < 2 ^ 32
  ra_small ra ra' small (inl same) = omega (arith, small, same)
  ra_small ra ra' small (inr (a, loaded)) = omega (arith, words a, loaded)

  turn-Ends :
      (fuel : ℕ) (w : Walk) (t : Turn)
      → ((w' : Walk)
          → IsGoing maps size w'
          → turns_left size w' < fuel
          → Ends (walk_loop maps mem size fuel w'))
      → IsGoing maps size w
      → turns_left size w < suc fuel
      → IsTurn maps mem size w t
      → Ends (if t.0 then walk_loop maps mem size fuel t.1 else some t.1.buffer)
  unfolding Ends
  turn-Ends fuel w t ih g enough stops = (w.buffer, refl, IsSound-of_IsGoing maps size w g)
  turn-Ends fuel w t ih g enough (steps_back off regular) =
      ih _ (IsGoing-back maps size w g regular off)
        (omega (arith, enough, previous_lt w.addr (not_low w.addr regular) g.addr_fits))
  turn-Ends fuel w t ih g enough (jumps ra' sp' regular from) =
      let small = ra_small w.ra ra' g.ra_fits from in
      elim (Bool-cases (ltb (suc (length w.buffer)) (size - 1))) [
        | inl room ↦ rw room (
            ih _
              (IsGoing-jump maps size w g regular ra' sp' small
                (ltb→lt (suc (length w.buffer)) (size - 1) room))
              (omega (
                arith,
                enough,
                jump_lt size (length w.buffer) (length (w.buffer ++ ra' ∷ [])) w.addr ra'
                    (length-snoc w.buffer ra') g.has_room small,
              )))
        | inr filled ↦
            rw filled (w.buffer ++ ra' ∷ [], refl, IsSound-jump maps size w g regular ra')
      ]

  walk_loop-Ends :
      (fuel : ℕ) (w : Walk)
      → IsGoing maps size w
      → turns_left size w < fuel
      → Ends (walk_loop maps mem size fuel w)
  unfolding walk_loop
  walk_loop-Ends zero w g enough = absurd (omega (arith, enough))
  walk_loop-Ends (suc fuel) w g enough =
      turn-Ends fuel w (turn maps mem size w) (walk_loop-Ends fuel) g enough
        (turn-IsTurn maps mem size w)

-- With a buffer of two entries or more, registers and memory of 32 bits, no readable address below 4
-- and fuel for `size * 2 ^ 30` turns, the backtrace ends; it returns nothing if the pc is unreadable,
-- and else at most `size` entries, of which all but the last are readable.
pub mips_backtrace-IsSound :
    (maps : List PmapLine) (mem : ℕ → ℕ) (size fuel pc ra sp : ℕ)
    → ((a : ℕ) → mem a < 2 ^ 32)
    → ((a : ℕ) → a < 4 → regular_addr maps a ≡ false)
    → 2 ≤ size
    → size * 2 ^ 30 ≤ fuel
    → pc < 2 ^ 32
    → ra < 2 ^ 32
    → (buffer : List ℕ) × (mips_backtrace maps mem fuel size pc ra sp ≡ some buffer)
      × ((regular_addr maps pc ≡ false) × (buffer ≡ []) ⊎ IsSound maps size buffer)
unfolding mips_backtrace Ends
mips_backtrace-IsSound maps mem size fuel pc ra sp words null_page room enough pc_fits ra_fits =
    let start : Walk = record { addr = pc; ra = ra; sp = sp; ra_offset = 0; buffer = pc ∷ [] } in
    let going : IsGoing maps size start = record {
      has_room = room;
      front = [];
      last = pc;
      whole = refl;
      looked_at = tt;
      at_last = inl refl;
      addr_fits = pc_fits;
      ra_fits = ra_fits;
    } in
    let ends =
      walk_loop-Ends maps mem size words null_page fuel start going
        (omega (arith, enough, pc_fits, room)) in
    elim (Bool-cases (regular_addr maps pc)) [
      | inl regular ↦ rw regular (ends.0, ends.1, inr ends.2)
      | inr outside ↦ rw outside ([], refl, inl (refl, refl))
    ]
