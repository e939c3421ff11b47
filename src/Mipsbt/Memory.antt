-- ===== src/Mipsbt/Memory.antt =====
-- The backtrace reads memory only where the map allows it.
use libmisc.Base.{
  ℕ, zero, suc, ◌-◌, ◌^◌, ◌/◌, ◌%◌, ◌≡◌, refl, ap, inl, inr, true, not, some, List, [], ◌∷◌,
  Bool-cases, if◌then◌else◌, ◌==◌,
}
use libmisc.Mipsbt.{
  PmapLine, regular_addr, Walk, turn, decode, jump_to_caller, walk_loop, mips_backtrace, add_32,
}

module _ (maps : List PmapLine) (mem mem' : ℕ → ℕ)
    (agree : (a : ℕ) → regular_addr maps a ≡ true → mem a ≡ mem' a) (size : ℕ) where
  jump_to_caller-agree :
      (stack_size : ℕ) (w : Walk)
      → jump_to_caller maps mem size stack_size w ≡ jump_to_caller maps mem' size stack_size w
  unfolding jump_to_caller
  jump_to_caller-agree stack_size w =
      elim (Bool-cases (regular_addr maps (add_32 w.sp w.ra_offset))) [
        | inl regular ↦ rw (agree (add_32 w.sp w.ra_offset) regular) refl
        | inr outside ↦ rw (jump_to_caller, outside) refl
      ]

  decode-agree :
      (op low : ℕ) (w : Walk) → decode maps mem size op low w ≡ decode maps mem' size op low w
  unfolding decode
  decode-agree op low w =
      rw (decode, jump_to_caller-agree (if low == 0 then 0 else 2 ^ 16 - low) w) refl

  turn-agree : (w : Walk) → turn maps mem size w ≡ turn maps mem' size w
  unfolding turn
  turn-agree w = elim (Bool-cases (regular_addr maps w.addr)) [
    | inl regular ↦
        rw
          (turn, agree w.addr regular, decode-agree (mem' w.addr / 2 ^ 16) (mem' w.addr % 2 ^ 16) w)
          refl
    | inr outside ↦ rw (turn, outside) refl
  ]

  walk_loop-agree :
      (fuel : ℕ) (w : Walk) → walk_loop maps mem size fuel w ≡ walk_loop maps mem' size fuel w
  unfolding walk_loop
  walk_loop-agree zero w = refl
  walk_loop-agree (suc fuel) w =
      rw (walk_loop, turn-agree w, walk_loop-agree fuel (turn maps mem' size w).1) refl

-- Two memories that agree at the addresses that `bt_regularAddr` accepts have the same backtrace:
-- no other address is read.
pub mips_backtrace_agree :
    (maps : List PmapLine) (mem mem' : ℕ → ℕ)
    → ((a : ℕ) → regular_addr maps a ≡ true → mem a ≡ mem' a)
    → (fuel size pc ra sp : ℕ)
    → mips_backtrace maps mem fuel size pc ra sp ≡ mips_backtrace maps mem' fuel size pc ra sp
unfolding mips_backtrace
mips_backtrace_agree maps mem mem' agree fuel size pc ra sp =
    ap (λ r. if not (regular_addr maps pc) then some [] else r)
      (walk_loop-agree maps mem mem' agree size fuel
        (record { addr = pc; ra = ra; sp = sp; ra_offset = 0; buffer = pc ∷ [] }))
