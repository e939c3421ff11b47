-- ===== src/EventList/Find.antt =====
-- The search for an event.
use libmisc.Base.{
  ℕ, zero, suc, ◌<◌, ◌≡◌, refl, inl, inr, Bool, true, false, ◌||◌, not, [], ◌∷◌, arith, ◌==◌,
  if◌then◌else◌, Bool-cases, length,
}
use libmisc.Base.Int.{pos}
use libmisc.Store.{Ptr, null, State, ok, Heap}
use libmisc.Store.Handle.{get_events-ok}
use libmisc.Store.Chain.{Cells, Chain, nil, cons, not_null, load-ok}
use libmisc.EventList.{find_loop, is_event_present}

module _ {A : Type 0} where
  -- The handle is allocated and counts the events, which the links lead through.
  pub record IsEventList {E : Type 0} (s : State A E) (xs : Cells A) : Type 0 where
    pub live : s.live ≡ true
    pub chain : Chain s.heap s.events xs
    pub number : s.number ≡ pos (length xs)

  -- Some event matches.
  unfoldable pub contains : (A → Bool) → Cells A → Bool
  contains matches [] = false
  contains matches ((p, a) ∷ xs) = matches a || contains matches xs

  unfoldable pub find : (A → Bool) → Cells A → Ptr
  find matches [] = null
  find matches ((p, a) ∷ xs) = if matches a then p else find matches xs

find-contains :
    {A : Type 0} (matches : A → Bool) {h : Heap A} {p : Ptr} {xs : Cells A}
    → Chain h p xs
    → not (find matches xs == null) ≡ contains matches xs
unfolding find contains
find-contains matches nil = refl
find-contains matches (cons e out c) = ground (arith, not_null e, find-contains matches c)

module _ {A E : Type 0} {s : State A E} (matches : A → Bool) where
  find_loop-find :
      (k : ℕ) {p : Ptr} {xs : Cells A}
      → Chain s.heap p xs
      → length xs < k
      → find_loop k matches p s ≡ ok (find matches xs) s
  unfolding find_loop find
  find_loop-find zero c fuel = absurd (omega arith)
  find_loop-find (suc k) nil fuel = refl
  find_loop-find (suc k) (cons {a} e out c) fuel =
      rw (not_null e, load-ok s e)
        (elim (Bool-cases (matches a)) [
          | inl hit ↦ rw hit
          | inr miss ↦ rw miss (find_loop-find k c (omega arith))
        ])

  -- The search says whether an event matches, and changes nothing.
  pub is_event_present-contains :
      (k : ℕ) {xs : Cells A}
      → IsEventList s xs
      → length xs < k
      → is_event_present k matches s ≡ ok (contains matches xs) s
  unfolding is_event_present
  is_event_present-contains k {xs} is fuel =
      rw (get_events-ok s is.live, find_loop-find k is.chain fuel, find-contains matches is.chain)
