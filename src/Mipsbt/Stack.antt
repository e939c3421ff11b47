-- ===== src/Mipsbt/Stack.antt =====
-- The call stack of a MIPS process, as its code and its memory show it: going back from the pc or from a
-- return address, the code has `sw ra, off(sp)` where the function saves its return address, and
-- `addiu sp, sp, -size` where it makes its frame.
pub mod Turns
pub mod Ends
pub mod Found
use libmisc.Base.{
  ℕ, zero, suc, ◌+◌, ◌-◌, ◌/◌, ◌%◌, ◌^◌, ◌≡◌, ◌≢◌, ◌⊎◌, Bool, true, false, not, ◌&&◌, ◌||◌, List,
  [], ◌∷◌, ◌==◌, ltb, if◌then◌else◌,
}
use libmisc.Mipsbt.{PmapLine, regular_addr, add_32, previous, sign_extended}

-- `b .` with a delay slot behind it, where a walk ends.
abbrev pub endless : ℕ
endless = 0x1000ffff

-- An instruction moves `sp` by its lower half, or stores `ra` at an offset from `sp`.
abbrev pub moves_sp : ℕ → Bool
moves_sp word = word / 2 ^ 16 == 0x23bd || word / 2 ^ 16 == 0x27bd

abbrev pub saves_ra : ℕ → Bool
saves_ra word = word / 2 ^ 16 == 0xafbf || word / 2 ^ 16 == 0xffbf

abbrev pub moves_up : ℕ → Bool
moves_up word = ltb 0 (word % 2 ^ 16) && ltb (word % 2 ^ 16) (2 ^ 15)

-- What `addiu sp, sp, -size` takes off.
abbrev pub frame_size : ℕ → ℕ
frame_size word = if word % 2 ^ 16 == 0 then 0 else 2 ^ 16 - word % 2 ^ 16

-- An instruction makes a frame; it tells nothing of the frame.
abbrev pub makes_frame : ℕ → Bool
makes_frame word = moves_sp word && not (moves_up word)

abbrev pub is_plain : ℕ → Bool
is_plain word =
    not (word == endless) && (if moves_sp word then moves_up word else not (saves_ra word))

module _ (maps : List PmapLine) (mem : ℕ → ℕ) where
  -- The readable word at an address passes a test.
  abbrev pub At : (ℕ → Bool) → ℕ → Type 0
  At f a = (regular_addr maps a ≡ true) × (f (mem a) ≡ true)

  -- Going back from an address over so many plain words leads to another.
  pub data Passes : ℕ → ℕ → ℕ → Type 0 where
    here : (a : ℕ) → Passes a 0 a
    back : (a n b : ℕ) → At is_plain a → Passes (previous a) n b → Passes a (suc n) b

  -- The function at `a` has saved its return address `ret` in its frame, which begins at `sp`; the frame
  -- of the caller begins at `sp'`. The words of the function are so many.
  pub data IsFrame (a sp : ℕ) : ℕ → ℕ → ℕ → Type 0 where
    frame :
        (n save m make : ℕ)
        → Passes a n save
        → At saves_ra save
        → mem save % 2 ^ 16 ≢ 0
        → Passes (previous save) m make
        → At makes_frame make
        → mem make % 2 ^ 16 ≢ 0
        → regular_addr maps (add_32 sp (sign_extended (mem save % 2 ^ 16))) ≡ true
        → IsFrame a sp
            (mem (add_32 sp (sign_extended (mem save % 2 ^ 16))))
            (add_32 sp (frame_size (mem make)))
            (suc (suc m + n))

  -- The callers behind the return address `a`, whose frame begins at `sp`: the list of their return
  -- addresses, and how many words are passed.
  pub data Callers : ℕ → ℕ → List ℕ → ℕ → Type 0 where
    -- Nothing is known of a function without a frame to be seen, or that did not save its return address.
    halts :
        (a sp n b : ℕ)
        → Passes a n b
        → (regular_addr maps b ≡ false) ⊎ (mem b ≡ endless)
        → Callers a sp [] n
    unsaved : (a sp n b : ℕ) → Passes a n b → At makes_frame b → Callers a sp [] n
    called :
        (a sp ret sp' n m : ℕ) (rets : List ℕ)
        → IsFrame a sp ret sp' n
        → Callers ret sp' rets m
        → Callers a sp (ret ∷ rets) (m + n)

  -- The whole stack from the registers: the innermost function may be a leaf, whose return address is
  -- in the register, or have no frame to be seen.
  pub data IsStack (pc ra sp : ℕ) : List ℕ → ℕ → Type 0 where
    alone :
        (n b : ℕ)
        → Passes pc n b
        → (regular_addr maps b ≡ false) ⊎ (mem b ≡ endless)
        → IsStack pc ra sp [] n
    leaf :
        (n b m : ℕ) (rets : List ℕ)
        → Passes pc n b
        → At makes_frame b
        → regular_addr maps (add_32 sp 0) ≡ true
        → Callers ra (add_32 sp (frame_size (mem b))) rets m
        → IsStack pc ra sp (ra ∷ rets) (suc m + n)
    saved :
        (ret sp' n m : ℕ) (rets : List ℕ)
        → IsFrame pc sp ret sp' n
        → Callers ret sp' rets m
        → IsStack pc ra sp (ret ∷ rets) (m + n)
