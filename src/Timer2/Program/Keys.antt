-- ===== src/Timer2/Program/Keys.antt =====
-- That no two events have the same function and data is kept by every operation of misc_timer2.c.
use libmisc.Base.{ℕ, ◌≡◌, refl, inl, inr, Bool, false, ◌||◌, [], ◌∷◌, Bool-cases, arith}
use libmisc.Store.{Ptr}
use libmisc.Store.Chain.{Cells}
use libmisc.EventList.Find.{contains}
use libmisc.EventList.Unlink.{erase}
use libmisc.Timer2.{Event, matches}
use libmisc.Timer2.Fault.{IsApart, IsDistinct}

-- With fewer events before it, a list stays apart.
IsApart-fewer :
    (ys zs xs : Cells Event)
    → ((f c : ℕ) → contains (matches f c) ys ≡ false → contains (matches f c) zs ≡ false)
    → IsApart ys xs
    → IsApart zs xs
unfolding contains
IsApart-fewer ys zs [] fewer h = tt
IsApart-fewer ys zs ((p, e) ∷ xs) fewer h = (
  fewer e.func e.ctx_arg h.0,
  IsApart-fewer ((p, e) ∷ ys) ((p, e) ∷ zs) xs (λ f c none. ground (arith, none, fewer f c)) h.1,
)

pub IsApart-erase :
    (f : Event → Bool) (ys xs : Cells Event) → IsApart ys xs → IsApart ys (erase f xs)
unfolding erase contains
IsApart-erase f ys [] h = tt
IsApart-erase f ys ((p, e) ∷ xs) h = elim (Bool-cases (f e)) [
  | inl hit ↦ rw hit (IsApart-fewer ((p, e) ∷ ys) ys xs (λ g c none. ground (arith, none)) h.1)
  | inr miss ↦ rw miss (h.0, IsApart-erase f ((p, e) ∷ ys) xs h.1)
]

-- One more event before it, which has no function and data of the list.
pub IsApart-front :
    (p : Ptr) (e : Event) (ys zs xs : Cells Event)
    → ((f c : ℕ) → contains (matches f c) zs ≡ (matches f c e || contains (matches f c) ys))
    → contains (matches e.func e.ctx_arg) xs ≡ false
    → IsApart ys xs
    → IsApart zs xs
unfolding contains
IsApart-front p e ys zs [] more absent h = tt
IsApart-front p e ys zs ((q, a) ∷ xs) more absent h = (
  ground (arith, more a.func a.ctx_arg, absent, h.0),
  IsApart-front p e ((q, a) ∷ ys) ((q, a) ∷ zs) xs (λ f c. ground (arith, more f c))
      (ground (arith, absent)) h.1,
)

pub IsDistinct-cons :
    (p : Ptr) (e : Event) (xs : Cells Event)
    → contains (matches e.func e.ctx_arg) xs ≡ false
    → IsDistinct xs
    → IsDistinct ((p, e) ∷ xs)
unfolding contains
IsDistinct-cons p e xs absent h =
    (refl, IsApart-front p e [] ((p, e) ∷ []) xs (λ f c. refl) absent h)
