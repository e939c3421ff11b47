-- ===== src/Mipsbt/Bounds.antt =====
-- What a turn of the loop can do, and the size of the buffer.
use mathlib.Core.Path.{subst}
use libmisc.Base.{
  ℕ, suc, ◌-◌, ◌^◌, ◌/◌, ◌%◌, ◌≤◌, ◌<◌, ◌≡◌, refl, sym, inl, inr, ◌⊎◌, Bool, true, false, not, ◌&&◌,
  ◌||◌, List, [], ◌∷◌, ◌++◌, arith, length, length-append, if◌then◌else◌, ltb, ◌==◌, All,
}
use libmisc.Mipsbt.{
  PmapLine, regular_addr, Walk, Turn, turn, jump_to_caller, decode, add_32, previous, sign_extended,
}

-- A property of both branches.
if_elim {ℓ κ} :
    {A : Type ℓ} (P : A → Type κ) (b : Bool) (x y : A)
    → (b ≡ true → P x)
    → (b ≡ false → P y)
    → P (if b then x else y)
if_elim P true x y f g = f refl
if_elim P false x y f g = g refl

-- A turn stops where it is, or goes back by a word, or jumps to a caller, which it has in `ra` or
-- reads from a readable place.
pub data IsTurn (maps : List PmapLine) (mem : ℕ → ℕ) (size : ℕ) (w : Walk) : Turn → Type 0 where
  stops : IsTurn maps mem size w (false, w)
  steps_back :
      (ra_offset' : ℕ)
      → regular_addr maps w.addr ≡ true
      → IsTurn maps mem size w (true, record w { addr = previous w.addr; ra_offset = ra_offset' })
  jumps :
      (ra' sp' : ℕ)
      → regular_addr maps w.addr ≡ true
      → (ra' ≡ w.ra) ⊎ ((a : ℕ) × (ra' ≡ mem a))
      → IsTurn maps mem size w (
        ltb (suc (length w.buffer)) (size - 1),
        record { addr = ra'; ra = ra'; sp = sp'; ra_offset = 0; buffer = w.buffer ++ ra' ∷ [] },
      )

module _ (maps : List PmapLine) (mem : ℕ → ℕ) (size : ℕ) (w : Walk) where
  jump_to_caller-IsTurn :
      (stack_size : ℕ)
      → regular_addr maps w.addr ≡ true
      → IsTurn maps mem size w (jump_to_caller maps mem size stack_size w)
  unfolding jump_to_caller
  jump_to_caller-IsTurn stack_size regular =
      let saved = add_32 w.sp w.ra_offset in
      let ra' = if w.ra_offset == 0 then w.ra else mem saved in
      let stay : Turn = (false, w) in
      let jumped : Turn = (
        ltb (suc (length w.buffer)) (size - 1),
        record {
          addr = ra';
          ra = ra';
          sp = add_32 w.sp stack_size;
          ra_offset = 0;
          buffer = w.buffer ++ ra' ∷ [];
        },
      ) in
      let from : (ra' ≡ w.ra) ⊎ ((a : ℕ) × (ra' ≡ mem a)) =
        if_elim (λ r. (r ≡ w.ra) ⊎ ((a : ℕ) × (r ≡ mem a))) (w.ra_offset == 0) w.ra (mem saved)
          (λ none_saved. inl refl) (λ found. inr (saved, refl)) in
      if_elim (IsTurn maps mem size w)
        (not (length w.buffer - 1 == 0) && (stack_size == 0 || w.ra_offset == 0)) stay
        (if not (regular_addr maps saved) then stay else jumped) (λ h. stops)
        (λ h.
          if_elim (IsTurn maps mem size w) (not (regular_addr maps saved)) stay jumped (λ h'. stops)
            (λ h'. jumps ra' (add_32 w.sp stack_size) regular from))

  decode-IsTurn :
      (op low : ℕ)
      → regular_addr maps w.addr ≡ true
      → IsTurn maps mem size w (decode maps mem size op low w)
  unfolding decode
  decode-IsTurn op low regular =
      let back : Turn = (true, record w { addr = previous w.addr }) in
      let saving : Turn =
        (true, record w { addr = previous w.addr; ra_offset = sign_extended low }) in
      let stack_size = if low == 0 then 0 else 2 ^ 16 - low in
      let jump = jump_to_caller maps mem size stack_size w in
      if_elim (IsTurn maps mem size w) (op == 0x23bd || op == 0x27bd)
        (if ltb 0 low && ltb low (2 ^ 15) then back else jump)
        (if op == 0xafbf || op == 0xffbf then saving else back)
        (λ moves.
          if_elim (IsTurn maps mem size w) (ltb 0 low && ltb low (2 ^ 15)) back jump
            (λ up. steps_back w.ra_offset regular)
            (λ down. jump_to_caller-IsTurn stack_size regular))
        (λ other.
          if_elim (IsTurn maps mem size w) (op == 0xafbf || op == 0xffbf) saving back
            (λ saves. steps_back (sign_extended low) regular)
            (λ skips. steps_back w.ra_offset regular))

  pub turn-IsTurn : IsTurn maps mem size w (turn maps mem size w)
  unfolding turn
  turn-IsTurn =
      let stay : Turn = (false, w) in
      let decoded = decode maps mem size (mem w.addr / 2 ^ 16) (mem w.addr % 2 ^ 16) w in
      let go = if mem w.addr == 0x1000ffff then stay else decoded in
      if_elim (IsTurn maps mem size w) (not (regular_addr maps w.addr)) stay go (λ h. stops)
        (λ h.
          if_elim (IsTurn maps mem size w) (mem w.addr == 0x1000ffff) stay decoded (λ h'. stops)
            (λ h'. decode-IsTurn (mem w.addr / 2 ^ 16) (mem w.addr % 2 ^ 16) (ground (arith, h))))

-- A sound buffer of `size` entries: they fit, and the code at every entry but the last is readable.
pub record IsSound (maps : List PmapLine) (size : ℕ) (buffer : List ℕ) : Type 0 where
  pub fits : length buffer ≤ size
  pub front : List ℕ
  pub last : ℕ
  pub whole : buffer ≡ front ++ last ∷ []
  pub looked_at : All (λ a. regular_addr maps a ≡ true) front

-- What holds between two turns: there is room for one more entry, and the last entry is readable,
-- or is where the walk is.
pub record IsGoing (maps : List PmapLine) (size : ℕ) (w : Walk) : Type 0 where
  pub has_room : length w.buffer < size
  pub front : List ℕ
  pub last : ℕ
  pub whole : w.buffer ≡ front ++ last ∷ []
  pub looked_at : All (λ a. regular_addr maps a ≡ true) front
  pub at_last : (w.addr ≡ last) ⊎ (regular_addr maps last ≡ true)
  pub addr_fits : w.addr < 2 ^ 32
  pub ra_fits : w.ra < 2 ^ 32

All-snoc : (P : ℕ → Type 0) (xs : List ℕ) (x : ℕ) → All P xs → P x → All P (xs ++ x ∷ [])
All-snoc P [] x h hx = (hx, tt)
All-snoc P (y ∷ ys) x h hx = (h.0, All-snoc P ys x h.1 hx)

module _ (maps : List PmapLine) (size : ℕ) (w : Walk) (g : IsGoing maps size w) where
  pub IsSound-of_IsGoing : IsSound maps size w.buffer
  IsSound-of_IsGoing = record {
    fits = omega (arith, g.has_room);
    front = g.front;
    last = g.last;
    whole = g.whole;
    looked_at = g.looked_at;
  }

  module _ (regular : regular_addr maps w.addr ≡ true) where
    last_looked_at : regular_addr maps g.last ≡ true
    last_looked_at = elim g.at_last [
      | inl here ↦ subst (λ a. regular_addr maps a ≡ true) here regular
      | inr seen ↦ seen
    ]

    pub buffer_looked_at : All (λ a. regular_addr maps a ≡ true) w.buffer
    buffer_looked_at =
        subst (λ b. All (λ a. regular_addr maps a ≡ true) b) (sym g.whole)
          (All-snoc (λ a. regular_addr maps a ≡ true) g.front g.last g.looked_at last_looked_at)

    pub IsGoing-back :
        (off : ℕ) → IsGoing maps size (record w { addr = previous w.addr; ra_offset = off })
    IsGoing-back off = record {
      has_room = g.has_room;
      front = g.front;
      last = g.last;
      whole = g.whole;
      looked_at = g.looked_at;
      at_last = inr last_looked_at;
      addr_fits = omega arith;
      ra_fits = g.ra_fits;
    }

    pub IsSound-jump : (ra' : ℕ) → IsSound maps size (w.buffer ++ ra' ∷ [])
    IsSound-jump ra' = record {
      fits = omega (arith, length-append w.buffer (ra' ∷ []), g.has_room);
      front = w.buffer;
      last = ra';
      whole = refl;
      looked_at = buffer_looked_at;
    }

    pub IsGoing-jump :
        (ra' sp' : ℕ)
        → ra' < 2 ^ 32
        → suc (length w.buffer) < size - 1
        → IsGoing maps size (record {
          addr = ra';
          ra = ra';
          sp = sp';
          ra_offset = 0;
          buffer = w.buffer ++ ra' ∷ [];
        })
    IsGoing-jump ra' sp' small room = record {
      has_room = omega (arith, length-append w.buffer (ra' ∷ []), room);
      front = w.buffer;
      last = ra';
      whole = refl;
      looked_at = buffer_looked_at;
      at_last = inl refl;
      addr_fits = small;
      ra_fits = small;
    }
