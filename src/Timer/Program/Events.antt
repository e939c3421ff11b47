-- ===== src/Timer/Program/Events.antt =====
-- The events of a list in memory, without their addresses.
use libmisc.Base.{
  ℕ, ◌≡◌, refl, sym, ap, inl, inr, Bool, true, false, not, ◌||◌, List, [], ◌∷◌, Bool-cases, All,
  All-map, arith, length, ◌+◌, suc,
}
use libmisc.Store.{Ptr}
use libmisc.Store.Chain.{Cells, has}
use libmisc.Time.{Timeval, is_earlier_than}
use libmisc.Time.Order.{not_earlier_trans}
use libmisc.EventList.Find.{contains}
use libmisc.EventList.Unlink.{erase}
use libmisc.Timer.{Event, matches}
use libmisc.Timer.Insert.{earlier, insert}
use libmisc.Timer.Order.{NotBefore, IsOrdered, IsDistinct}
use libmisc.Timer.Expire.{expired, pending, run_all}
use libmisc.Timer.Program.Spec.{any, keep, insert_event, is_expired, act_all}

unfoldable pub events : Cells Event → List Event
events [] = []
events ((p, e) ∷ xs) = e ∷ events xs

pub length-events : (xs : Cells Event) → length (events xs) ≡ length xs
unfolding events
length-events [] = refl
length-events ((p, e) ∷ xs) = ap suc (length-events xs)

pub contains-events : (f : Event → Bool) (xs : Cells Event) → contains f xs ≡ any f (events xs)
unfolding contains any events
contains-events f [] = refl
contains-events f ((p, e) ∷ xs) = ap (λ b. f e || b) (contains-events f xs)

pub events-insert :
    (p : Ptr) (e : Event) (xs : Cells Event)
    → events (insert (p, e) xs) ≡ insert_event e (events xs)
unfolding insert insert_event events
events-insert p e [] = refl
events-insert p e ((q, a) ∷ xs) = elim (Bool-cases (earlier e a)) [
  | inl front ↦ rw front refl
  | inr behind ↦ rw (behind, events-insert p e xs) refl
]

-- A test that fails at every event, or passes.
keep_nothing :
    (f : Event → Bool) (xs : Cells Event)
    → All (λ (x : Ptr × Event). f x.1 ≡ false) xs
    → keep f (events xs) ≡ []
unfolding keep events
keep_nothing f [] h = refl
keep_nothing f ((p, e) ∷ xs) h = rw h.0 (keep_nothing f xs h.1)

keep_failed :
    (f : Event → Bool) (xs : Cells Event)
    → All (λ (x : Ptr × Event). f x.1 ≡ false) xs
    → keep (λ e. not (f e)) (events xs) ≡ events xs
unfolding keep events
keep_failed f [] h = refl
keep_failed f ((p, e) ∷ xs) h = rw h.0 (ap (λ es. e ∷ es) (keep_failed f xs h.1))

-- Where no two events are alike, the first that matches is the only one.
pub events-erase :
    (func ctx : ℕ) (xs : Cells Event)
    → IsDistinct xs
    → events (erase (matches func ctx) xs) ≡ keep (λ e. not (matches func ctx e)) (events xs)
unfolding erase events keep
events-erase func ctx [] h = refl
events-erase func ctx ((p, e) ∷ xs) h = elim (Bool-cases (matches func ctx e)) [
  | inl hit ↦ rw hit (sym (keep_failed (matches func ctx) xs (All-map xs (λ x. alike x.1 hit) h.0)))
  | inr miss ↦ rw miss (ap (λ es. e ∷ es) (events-erase func ctx xs h.1))
]
  where
    alike :
        (a : Event)
        → matches func ctx e ≡ true
        → matches e.func e.ctx_data a ≡ false
        → matches func ctx a ≡ false
    alike a hit h = ground arith

module _ (now : Timeval) where
  not_due :
      (e : Event) (xs : Cells Event)
      → is_expired now e ≡ false
      → All (NotBefore e) xs
      → All (λ (x : Ptr × Event). is_expired now x.1 ≡ false) xs
  not_due e xs late h =
      All-map xs (λ x later. not_earlier_trans now e.expire x.1.expire late later) h

  -- In an ordered list, the expired events at the front are all that have expired.
  pub events-expired :
      (xs : Cells Event)
      → IsOrdered xs
      → events (expired now xs) ≡ keep (is_expired now) (events xs)
  unfolding expired events keep
  events-expired [] h = refl
  events-expired ((p, e) ∷ xs) h = elim (Bool-cases (is_expired now e)) [
    | inl due ↦ rw due (ap (λ es. e ∷ es) (events-expired xs h.1))
    | inr late ↦ rw late (sym (keep_nothing (is_expired now) xs (not_due e xs late h.0)))
  ]

  pub events-pending :
      (xs : Cells Event)
      → IsOrdered xs
      → events (pending now xs) ≡ keep (λ e. not (is_expired now e)) (events xs)
  unfolding pending events keep
  events-pending [] h = refl
  events-pending ((p, e) ∷ xs) h = elim (Bool-cases (is_expired now e)) [
    | inl due ↦ rw due (events-pending xs h.1)
    | inr late ↦
        rw late (ap (λ es. e ∷ es) (sym (keep_failed (is_expired now) xs (not_due e xs late h.0))))
  ]

  pub pending-IsOrdered : (xs : Cells Event) → IsOrdered xs → IsOrdered (pending now xs)
  unfolding pending
  pending-IsOrdered [] h = tt
  pending-IsOrdered ((p, e) ∷ xs) h = elim (Bool-cases (is_earlier_than e.expire now)) [
    | inl due ↦ rw due (pending-IsOrdered xs h.1)
    | inr late ↦ rw late h
  ]

  pub pending-IsDistinct : (xs : Cells Event) → IsDistinct xs → IsDistinct (pending now xs)
  unfolding pending
  pending-IsDistinct [] h = tt
  pending-IsDistinct ((p, e) ∷ xs) h = elim (Bool-cases (is_earlier_than e.expire now)) [
    | inl due ↦ rw due (pending-IsDistinct xs h.1)
    | inr late ↦ rw late h
  ]

  -- Every address is in one of the two parts.
  pub has-expired :
      (p : Ptr) (xs : Cells Event) → has p xs ≡ (has p (expired now xs) || has p (pending now xs))
  unfolding expired pending
  has-expired p [] = refl
  has-expired p ((q, e) ∷ xs) = elim (Bool-cases (is_earlier_than e.expire now)) [
    | inl due ↦ rw (due, has-expired p xs) (ground arith)
    | inr late ↦ rw late refl
  ]

-- The two parts are the list.
pub length-parts :
    (now : Timeval) (xs : Cells Event)
    → length (expired now xs) + length (pending now xs) ≡ length xs
unfolding expired pending
length-parts now [] = refl
length-parts now ((p, e) ∷ xs) = elim (Bool-cases (is_earlier_than e.expire now)) [
  | inl due ↦ rw due (omega (arith, length-parts now xs))
  | inr late ↦ rw late (omega arith)
]

pub run_all-act_all :
    {E : Type 0} (act : ℕ → ℕ → E → E) (xs : Cells Event) (env : E)
    → run_all act xs env ≡ act_all act (events xs) env
unfolding run_all act_all events
run_all-act_all act [] env = refl
run_all-act_all act ((p, e) ∷ xs) env = run_all-act_all act xs (act e.func e.ctx_data env)
