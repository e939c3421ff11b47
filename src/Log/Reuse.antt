-- ===== src/Log/Reuse.antt =====
-- How often an application finds its entity again.
use mathlib.Core.Option.{none-ne-some}
use libmisc.Base.{
  ℕ, zero, suc, ◌≤◌, ◌<◌, ◌≡◌, refl, ap, inl, inr, true, none, some, List, [], ◌∷◌, ◌==◌, ==_iff,
  Bool-cases, Option-cases, length, All, arith,
}
use libmisc.Base.Text.{Text, text_eq, truncated}
use libmisc.Base.Text.Take.{take_all}
use libmisc.Log.{LogAttr, max_log_name_length}
use libmisc.Log.Slots.{
  init_log_entity, find_named, find_unused, fresh_entity, put, init_named, init_unused, init_full,
  find_named-cases, IsUnnamed, get_elem?,
}

pub text_eq_refl : (s : Text) → text_eq s s ≡ true
unfolding text_eq
text_eq_refl [] = refl
text_eq_refl (c ∷ s) = rw ((==_iff c c).1 refl) (text_eq_refl s)

text_eq-length : (s t : Text) → text_eq s t ≡ true → length s ≡ length t
unfolding text_eq
text_eq-length [] [] h = refl
text_eq-length [] (y ∷ t) h = ground arith
text_eq-length (x ∷ s) [] h = ground arith
text_eq-length (x ∷ s) (y ∷ t) h = elim (Bool-cases (x == y)) [
  | inl same ↦ ap suc (text_eq-length s t (ground (arith, h, same)))
  | inr other ↦ ground (arith, h, other)
]

-- The first entity of a name, once it is written where no entity had the name.
find_named-put :
    (name : Text) (i : ℕ) (a b : LogAttr) (entities : List LogAttr)
    → IsUnnamed name entities
    → get_elem? entities i ≡ some a
    → text_eq b.log_application_name name ≡ true
    → find_named name (put i b entities) ≡ some i
unfolding find_named
find_named-put name i a b [] unnamed at named = absurd (none-ne-some a at)
find_named-put name zero a b (x ∷ xs) unnamed at named = rw named refl
find_named-put name (suc i) a b (x ∷ xs) unnamed at named =
    rw (unnamed.0, find_named-put name i a b xs unnamed.1 at named) refl

-- A name that is longer than all the names of the array is not found.
find_named_long :
    (app_name : Text) (entities : List LogAttr)
    → max_log_name_length ≤ length app_name
    → All (λ a. length a.log_application_name < max_log_name_length) entities
    → find_named app_name entities ≡ none
unfolding find_named
find_named_long app_name [] long fit = refl
find_named_long app_name (a ∷ rest) long fit =
    elim (Bool-cases (text_eq a.log_application_name app_name)) [
      | inl same ↦
          absurd (omega (arith, fit.0, text_eq-length a.log_application_name app_name same))
      | inr other ↦ rw (other, find_named_long app_name rest long fit.1) refl
    ]

-- A name that fits is registered once: the next call finds the same entity and changes nothing.
pub init_log_entity_again :
    (app_name : Text) (entities : List LogAttr)
    → length app_name < max_log_name_length
    → init_log_entity app_name (init_log_entity app_name entities).1
      ≡ init_log_entity app_name entities
unfolding fresh_entity truncated
init_log_entity_again app_name entities short = elim (find_named-cases app_name entities) [
  | inr (i, a, finds, at, same) ↦ let again = init_named app_name entities i finds in rw again again
  | inl (fails, unnamed) ↦ elim (find_named-cases [] entities) [
    | inl (none_left, used) ↦ let same = init_full app_name entities fails none_left in rw same same
    | inr (i, a, finds, at, unused) ↦ rw (init_unused app_name entities i fails finds) (
        init_named app_name (put i (fresh_entity app_name) entities) i (
          find_named-put app_name i a (fresh_entity app_name) entities unnamed at
            (rw (take_all 15 app_name (omega arith)) (text_eq_refl app_name))))
  ]
]

-- For a name of 16 bytes or more, with names that fit in the array, the result is that of the search
-- for an unused entity.
pub init_log_entity_long :
    (app_name : Text) (entities : List LogAttr)
    → max_log_name_length ≤ length app_name
    → All (λ a. length a.log_application_name < max_log_name_length) entities
    → (init_log_entity app_name entities).0 ≡ find_unused entities
unfolding init_log_entity
init_log_entity_long app_name entities long fit =
    rw (init_log_entity, find_named_long app_name entities long fit)
      (elim (Option-cases (find_unused entities)) [
        | inl none_left ↦ rw none_left refl
        | inr (i, finds) ↦ rw finds refl
      ])
