-- ===== src/Timer/Order.antt =====
-- The order of the events, and that no two have the same function and data.
use libmisc.Base.{
  ℕ, ◌≡◌, refl, inl, inr, Bool, true, false, [], ◌∷◌, arith, Bool-cases, All, All-map,
}
use libmisc.Store.{Ptr, State}
use libmisc.Store.Chain.{Cells}
use libmisc.Time.Order.{not_earlier_trans, not_earlier_of_earlier}
use libmisc.EventList.Find.{IsEventList, contains}
use libmisc.EventList.Unlink.{erase}
use libmisc.Timer.{Event, matches}
use libmisc.Timer.Insert.{earlier, insert}

-- An event that is not earlier than `e`, and one with another function or other data.
abbrev pub NotBefore : Event → Ptr × Event → Type 0
NotBefore e (_, a) = earlier a e ≡ false

abbrev pub Unlike : Event → Ptr × Event → Type 0
Unlike e (_, a) = matches e.func e.ctx_data a ≡ false

-- No event is earlier than one that stands before it.
abbrev pub IsOrdered : Cells Event → Type 0
IsOrdered [] = Unit {0}
IsOrdered ((_, e) ∷ xs) = All (NotBefore e) xs × IsOrdered xs

-- No two events have the same function and data.
abbrev pub IsDistinct : Cells Event → Type 0
IsDistinct [] = Unit {0}
IsDistinct ((_, e) ∷ xs) = All (Unlike e) xs × IsDistinct xs

-- What holds of a handle between two calls.
pub record IsTimer {E : Type 0} (s : State Event E) (xs : Cells Event) : Type 0 where
  pub list : IsEventList s xs
  pub ordered : IsOrdered xs
  pub distinct : IsDistinct xs

module _ (P : Ptr × Event → Type 0) where
  pub All-insert : (c : Ptr × Event) (xs : Cells Event) → P c → All P xs → All P (insert c xs)
  unfolding insert
  All-insert c [] h hs = (h, tt)
  All-insert (p, e) ((q, a) ∷ xs) h hs = elim (Bool-cases (earlier e a)) [
    | inl front ↦ rw front (h, hs)
    | inr behind ↦ rw behind (hs.0, All-insert (p, e) xs h hs.1)
  ]

  pub All-erase : (f : Event → Bool) (xs : Cells Event) → All P xs → All P (erase f xs)
  unfolding erase
  All-erase f [] hs = tt
  All-erase f ((q, a) ∷ xs) hs = elim (Bool-cases (f a)) [
    | inl hit ↦ rw hit hs.1
    | inr miss ↦ rw miss (hs.0, All-erase f xs hs.1)
  ]

pub insert-IsOrdered : (c : Ptr × Event) (xs : Cells Event) → IsOrdered xs → IsOrdered (insert c xs)
unfolding insert
insert-IsOrdered c [] h = (tt, tt)
insert-IsOrdered (p, e) ((q, a) ∷ xs) h = elim (Bool-cases (earlier e a)) [
  | inl front ↦
      let before : earlier a e ≡ false = not_earlier_of_earlier e.expire a.expire front in
      rw front (
        (
          before,
          All-map xs (λ x later. not_earlier_trans e.expire a.expire x.1.expire before later) h.0,
        ),
        h,
      )
  | inr behind ↦
      rw behind (All-insert (NotBefore a) (p, e) xs behind h.0, insert-IsOrdered (p, e) xs h.1)
]

matches_sym :
    (a b : Event) → matches a.func a.ctx_data b ≡ false → matches b.func b.ctx_data a ≡ false
matches_sym a b h = ground arith

All-of_absent :
    (f : Event → Bool) (xs : Cells Event)
    → contains f xs ≡ false
    → All (λ (x : Ptr × Event). f x.1 ≡ false) xs
unfolding contains
All-of_absent f [] h = tt
All-of_absent f ((q, a) ∷ xs) h = (ground arith, All-of_absent f xs (ground arith))

pub insert-IsDistinct :
    (p : Ptr) (e : Event) (xs : Cells Event)
    → contains (matches e.func e.ctx_data) xs ≡ false
    → IsDistinct xs
    → IsDistinct (insert (p, e) xs)
unfolding insert contains
insert-IsDistinct p e [] absent h = (tt, tt)
insert-IsDistinct p e ((q, a) ∷ xs) absent h = elim (Bool-cases (earlier e a)) [
  | inl front ↦ rw front (All-of_absent (matches e.func e.ctx_data) ((q, a) ∷ xs) absent, h)
  | inr behind ↦ rw behind (
    All-insert (Unlike a) (p, e) xs (matches_sym e a (ground arith)) h.0,
    insert-IsDistinct p e xs (ground arith) h.1,
  )
]

pub erase-IsOrdered : (f : Event → Bool) (xs : Cells Event) → IsOrdered xs → IsOrdered (erase f xs)
unfolding erase
erase-IsOrdered f [] h = tt
erase-IsOrdered f ((q, a) ∷ xs) h = elim (Bool-cases (f a)) [
  | inl hit ↦ rw hit h.1
  | inr miss ↦ rw miss (All-erase (NotBefore a) f xs h.0, erase-IsOrdered f xs h.1)
]

pub erase-IsDistinct :
    (f : Event → Bool) (xs : Cells Event) → IsDistinct xs → IsDistinct (erase f xs)
unfolding erase
erase-IsDistinct f [] h = tt
erase-IsDistinct f ((q, a) ∷ xs) h = elim (Bool-cases (f a)) [
  | inl hit ↦ rw hit h.1
  | inr miss ↦ rw miss (All-erase (Unlike a) f xs h.0, erase-IsDistinct f xs h.1)
]

contains-of_All :
    (func ctx : ℕ) (a : Event) (xs : Cells Event)
    → matches func ctx a ≡ true
    → All (λ (x : Ptr × Event). matches a.func a.ctx_data x.1 ≡ false) xs
    → contains (matches func ctx) xs ≡ false
unfolding contains
contains-of_All func ctx a [] hit h = refl
contains-of_All func ctx a ((p, b) ∷ xs) hit h =
    ground (arith, contains-of_All func ctx a xs hit h.1, h.0)

-- In a list without two alike, what is left after a deletion has no event that matches.
pub contains-erase :
    (func ctx : ℕ) (xs : Cells Event)
    → IsDistinct xs
    → contains (matches func ctx) (erase (matches func ctx) xs) ≡ false
unfolding erase contains
contains-erase func ctx [] h = refl
contains-erase func ctx ((q, a) ∷ xs) h = elim (Bool-cases (matches func ctx a)) [
  | inl hit ↦ rw hit (contains-of_All func ctx a xs hit h.0)
  | inr miss ↦ rw miss (ground (arith, contains-erase func ctx xs h.1))
]
