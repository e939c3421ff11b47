-- ===== src/Mipsbt/Stack/Found.antt =====
-- The backtrace finds the callers of the stack.
use mathlib.Core.List.{append-nil, append_assoc}
use mathlib.Core.Path.{subst}
use libmisc.Base.{
  ℕ, zero, suc, ◌+◌, ◌-◌, ◌%◌, ◌^◌, ◌≤◌, ◌<◌, ◌≡◌, refl, sym, ap, ◌∙◌, inl, inr, true, false, some,
  List, [], ◌∷◌, ◌++◌, ltb, if◌then◌else◌, Bool-cases, arith, length, length-append, take,
}
use libmisc.Mipsbt.{
  PmapLine, regular_addr, add_32, previous, sign_extended, Walk, turn, mips_backtrace,
}
use libmisc.Mipsbt.Stack.{
  frame_size, IsFrame, frame, Callers, halts, unsaved, called, IsStack, alone, leaf, saved,
}
use libmisc.Mipsbt.Stack.Ends.{
  sign_extended_ne, frame_size_ne, jumped, EndsWith, jump-saved, jump-leaf, jump-unsaved,
  EndsWith-turn, EndsWith-last, EndsWith-Passes, EndsWith-weaken,
}
use libmisc.Mipsbt.Stack.Turns.{turn-saves, turn-makes_frame, turn-halts}

module _ (maps : List PmapLine) (mem : ℕ → ℕ) (size : ℕ) where
  -- How many callers are added to so many entries: at least one, and up to one less than the size.
  abbrev room : ℕ → ℕ
  room depth = if ltb (suc depth) (size - 1) then size - 1 - depth else 1

  abbrev found : List ℕ → List ℕ → List ℕ
  found entries rets = entries ++ take (room (length entries)) rets

  found_none : (entries : List ℕ) → found entries [] ≡ entries
  found_none entries = rw (take_nil (room (length entries))) (append-nil entries)
    where
      take_nil : (n : ℕ) → take {A = ℕ} n [] ≡ []
      take_nil zero = refl
      take_nil (suc n) = refl

  found_next :
      (entries rets : List ℕ) (ret : ℕ)
      → ltb (suc (length entries)) (size - 1) ≡ true
      → found (entries ++ ret ∷ []) rets ≡ found entries (ret ∷ rets)
  found_next entries rets ret more =
      let longer : length (entries ++ ret ∷ []) ≡ suc (length entries) =
        omega (arith, length-append entries (ret ∷ [])) in
      let one_less : room (length entries) ≡ suc (room (suc (length entries))) =
        ground (arith, more) in
      rw (longer, one_less)
        (append_assoc entries (ret ∷ []) (take (room (suc (length entries))) rets))

  found_last :
      (entries rets : List ℕ) (ret : ℕ)
      → ltb (suc (length entries)) (size - 1) ≡ false
      → entries ++ ret ∷ [] ≡ found entries (ret ∷ rets)
  found_last entries rets ret full = rw full refl

  -- A jump to a caller in front.
  EndsWith-jump :
      (turns : ℕ) (w : Walk) (entries rets : List ℕ) (ret sp' : ℕ)
      → turn maps mem size w ≡ jumped maps mem size entries ret sp'
      → EndsWith maps mem size turns
          (record { addr = ret; ra = ret; sp = sp'; ra_offset = 0; buffer = entries ++ ret ∷ [] })
          (found (entries ++ ret ∷ []) rets)
      → EndsWith maps mem size (suc turns) w (found entries (ret ∷ rets))
  EndsWith-jump turns w entries rets ret sp' one rest =
      let w' : Walk = record {
        addr = ret;
        ra = ret;
        sp = sp';
        ra_offset = 0;
        buffer = entries ++ ret ∷ [];
      } in
      elim (Bool-cases (ltb (suc (length entries)) (size - 1))) [
        | inl more ↦
            subst (EndsWith maps mem size (suc turns) w) (found_next entries rets ret more)
              (EndsWith-turn maps mem size turns w w' _ (one ∙ ap (λ b. (b, w')) more) rest)
        | inr full ↦
            subst (EndsWith maps mem size (suc turns) w) (found_last entries rets ret full)
              (EndsWith-last maps mem size (suc turns) w w' (one ∙ ap (λ b. (b, w')) full))
      ]

  -- A function with its return address in its frame, in front of its callers.
  EndsWith-frame :
      (a ra sp ret sp' n turns : ℕ) (entries rets : List ℕ)
      → IsFrame maps mem a sp ret sp' n
      → EndsWith maps mem size turns
          (record { addr = ret; ra = ret; sp = sp'; ra_offset = 0; buffer = entries ++ ret ∷ [] })
          (found (entries ++ ret ∷ []) rets)
      → EndsWith maps mem size
          (turns + n)
          (record { addr = a; ra = ra; sp = sp; ra_offset = 0; buffer = entries })
          (found entries (ret ∷ rets))
  EndsWith-frame a ra sp _ _ _ turns entries rets
        (frame n save m make to_save saves offset to_make makes moved readable) rest =
      let result = found entries (mem (add_32 sp (sign_extended (mem save % 2 ^ 16))) ∷ rets) in
      let off = sign_extended (mem save % 2 ^ 16) in
      let at_save : Walk = record {
        addr = save;
        ra = ra;
        sp = sp;
        ra_offset = 0;
        buffer = entries;
      } in
      let at_make : Walk = record {
        addr = make;
        ra = ra;
        sp = sp;
        ra_offset = off;
        buffer = entries;
      } in
      let jump =
        EndsWith-jump turns at_make entries rets (mem (add_32 sp off))
          (add_32 sp (frame_size (mem make)))
          (turn-makes_frame maps mem size at_make makes
            ∙ jump-saved maps mem size (frame_size (mem make)) at_make
                (frame_size_ne (mem make) moved) (sign_extended_ne (mem save % 2 ^ 16) offset)
                readable)
          rest in
      let store =
        EndsWith-turn maps mem size (suc turns + m) at_save _ result
          (turn-saves maps mem size at_save saves)
          (EndsWith-Passes maps mem size (suc turns) m (previous save) make ra sp off entries result
            to_make jump) in
      EndsWith-weaken maps mem size _ _ _ result (omega arith) (
        EndsWith-Passes maps mem size (suc (suc turns + m)) n a save ra sp 0 entries result to_save
          store)

  Callers-EndsWith :
      (a ra sp n : ℕ) (entries rets : List ℕ)
      → Callers maps mem a sp rets n
      → 2 ≤ length entries
      → EndsWith maps mem size n
          (record { addr = a; ra = ra; sp = sp; ra_offset = 0; buffer = entries })
          (found entries rets)
  Callers-EndsWith a ra sp n entries _ (halts _ _ _ b pass stop) deep =
      let w : Walk = record { addr = b; ra = ra; sp = sp; ra_offset = 0; buffer = entries } in
      subst (EndsWith maps mem size n _) (sym (found_none entries)) (
        EndsWith-weaken maps mem size (0 + n) n _ entries (omega arith) (
          EndsWith-Passes maps mem size 0 n a b ra sp 0 entries entries pass
            (EndsWith-last maps mem size 0 w w (turn-halts maps mem size w stop))))
  Callers-EndsWith a ra sp n entries _ (unsaved _ _ _ b pass makes) deep =
      let w : Walk = record { addr = b; ra = ra; sp = sp; ra_offset = 0; buffer = entries } in
      subst (EndsWith maps mem size n _) (sym (found_none entries)) (
        EndsWith-weaken maps mem size (0 + n) n _ entries (omega arith) (
          EndsWith-Passes maps mem size 0 n a b ra sp 0 entries entries pass (
            EndsWith-last maps mem size 0 w w (
              turn-makes_frame maps mem size w makes
              ∙ jump-unsaved maps mem size (frame_size (mem b)) b ra sp entries deep))))
  Callers-EndsWith a ra sp _ entries _ (called _ _ ret sp' n m rets f callers) deep =
      EndsWith-frame a ra sp ret sp' n m entries rets f (
        Callers-EndsWith ret ret sp' m (entries ++ ret ∷ []) rets callers
          (omega (arith, deep, length-append entries (ret ∷ []))))

-- How many callers a buffer of `size` entries shows at most.
abbrev pub shown_callers : ℕ → ℕ
shown_callers size = if ltb 3 size then size - 2 else 1

room_first : (size : ℕ) → (if ltb 2 (size - 1) then size - 1 - 1 else 1) ≡ shown_callers size
room_first size = ground arith

module _ (maps : List PmapLine) (mem : ℕ → ℕ) (size pc ra sp : ℕ) where
  IsStack-EndsWith :
      (n : ℕ) (rets : List ℕ)
      → IsStack maps mem pc ra sp rets n
      → EndsWith maps mem size n
          (record { addr = pc; ra = ra; sp = sp; ra_offset = 0; buffer = pc ∷ [] })
          (pc ∷ take (if ltb 2 (size - 1) then size - 1 - 1 else 1) rets)
  IsStack-EndsWith n _ (alone _ b pass stop) =
      let w : Walk = record { addr = b; ra = ra; sp = sp; ra_offset = 0; buffer = pc ∷ [] } in
      subst (EndsWith maps mem size n _) (sym (found_none maps mem size (pc ∷ []))) (
        EndsWith-weaken maps mem size (0 + n) n _ (pc ∷ []) (omega arith) (
          EndsWith-Passes maps mem size 0 n pc b ra sp 0 (pc ∷ []) (pc ∷ []) pass
            (EndsWith-last maps mem size 0 w w (turn-halts maps mem size w stop))))
  IsStack-EndsWith _ _ (leaf n b m rets pass makes readable callers) =
      let w : Walk = record { addr = b; ra = ra; sp = sp; ra_offset = 0; buffer = pc ∷ [] } in
      EndsWith-Passes maps mem size (suc m) n pc b ra sp 0 (pc ∷ []) _ pass (
        EndsWith-jump maps mem size m w (pc ∷ []) rets ra (add_32 sp (frame_size (mem b)))
          (turn-makes_frame maps mem size w makes
            ∙ jump-leaf maps mem size (frame_size (mem b)) b ra sp pc readable)
          (Callers-EndsWith maps mem size ra ra _ m (pc ∷ ra ∷ []) rets callers (omega arith)))
  IsStack-EndsWith _ _ (saved ret sp' n m rets f callers) =
      EndsWith-frame maps mem size pc ra sp ret sp' n m (pc ∷ []) rets f
        (Callers-EndsWith maps mem size ret ret sp' m (pc ∷ ret ∷ []) rets callers (omega arith))

  -- The backtrace of a process whose pc is readable, and whose code and memory show its stack, consists
  -- of the pc and of the return addresses of the callers in their order. Of these it has at most
  -- `size - 2`, but always the first. Fuel for more turns than the walk passes words is enough.
  pub mips_backtrace-IsStack :
      (fuel n : ℕ) (rets : List ℕ)
      → regular_addr maps pc ≡ true
      → IsStack maps mem pc ra sp rets n
      → n < fuel
      → mips_backtrace maps mem fuel size pc ra sp ≡ some (pc ∷ take (shown_callers size) rets)
  unfolding mips_backtrace EndsWith
  mips_backtrace-IsStack fuel n rets regular stack enough =
      rw (mips_backtrace, regular)
        (IsStack-EndsWith n rets stack fuel enough
          ∙ ap (λ k. some (pc ∷ take k rets)) (room_first size))
