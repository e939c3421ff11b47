-- ===== src/Log/Separate.antt =====
-- Two applications that share the array of attributes.
use mathlib.Core.Option.{some-injective, none-ne-some}
use mathlib.Core.Path.{subst}
use libmisc.Base.{
  ℕ, ◌<◌, ◌≡◌, ◌≢◌, refl, sym, ap, ◌∙◌, inl, inr, true, Option, some, List, [], ◌∷◌, arith, length,
  ◌==◌, ==_iff, Bool-cases,
}
use libmisc.Base.Text.{Text, text_eq, truncated}
use libmisc.Base.Text.Take.{take_all}
use libmisc.Log.{LogAttr, max_log_name_length}
use libmisc.Log.Slots.{
  init_log_entity, init_log_entity-Outcome, Outcome, found, claimed, full, fresh_entity, get_elem?,
}
use libmisc.Log.Reuse.{text_eq_refl}

-- The entity of an application behind its call.
record Has (app_name : Text) (entities : List LogAttr) (i : ℕ) : Type 0 where
  entity : LogAttr
  at : get_elem? entities i ≡ some entity
  named : text_eq entity.log_application_name app_name ≡ true

text_eq_sound : (s t : Text) → text_eq s t ≡ true → s ≡ t
unfolding text_eq
text_eq_sound [] [] h = refl
text_eq_sound [] (y ∷ t) h = ground (arith, h)
text_eq_sound (x ∷ s) [] h = ground (arith, h)
text_eq_sound (x ∷ s) (y ∷ t) h = elim (Bool-cases (x == y)) [
  | inl same ↦
      ap (λ c. c ∷ s) ((==_iff x y).0 same)
      ∙ ap (λ r. y ∷ r) (text_eq_sound s t (ground (arith, h, same)))
  | inr other ↦ ground (arith, h, other)
]

-- What a call returns is an entity of the name.
Outcome-Has :
    (app_name : Text) (entities : List LogAttr) (r : Option ℕ × List LogAttr)
    → length app_name < max_log_name_length
    → Outcome app_name entities r
    → (i : ℕ) → r.0 ≡ some i
    → Has app_name r.1 i
unfolding fresh_entity truncated
Outcome-Has app_name entities _ short (found j a at named) i e =
    subst (Has app_name entities) (some-injective j i e)
      (record { entity = a; at = at; named = named })
Outcome-Has app_name entities _ short (claimed j a entities' unnamed was unused at others) i e =
    subst (Has app_name entities') (some-injective j i e) (record {
      entity = fresh_entity app_name;
      at = at;
      named = rw (take_all 15 app_name (omega (arith, short))) (text_eq_refl app_name);
    })
Outcome-Has app_name entities _ short (full unnamed used) i e = absurd (none-ne-some i e)

-- One entity has one name.
Has-name :
    (app_name name : Text) (entities : List LogAttr) (i : ℕ) (a : LogAttr)
    → Has app_name entities i
    → get_elem? entities i ≡ some a
    → text_eq a.log_application_name name ≡ true
    → app_name ≡ name
Has-name app_name name entities i a h at named =
    sym (text_eq_sound h.entity.log_application_name app_name h.named)
    ∙ ap (λ b. b.log_application_name) (some-injective h.entity a (sym h.at ∙ at))
    ∙ text_eq_sound a.log_application_name name named

-- The entity of another application stays as it is.
Outcome-apart :
    (mine other : Text) (entities : List LogAttr) (i : ℕ) (r : Option ℕ × List LogAttr)
    → mine ≢ other
    → mine ≢ []
    → Has mine entities i
    → Outcome other entities r
    → (r.0 ≢ some i) × (get_elem? r.1 i ≡ get_elem? entities i)
Outcome-apart mine other entities i _ differ named h (found j a at same) = (
  λ e. differ (
      Has-name mine other entities i a h (ap (get_elem? entities) (sym (some-injective j i e)) ∙ at)
        same),
  refl,
)
Outcome-apart mine other entities i _ differ named h
      (claimed j a entities' unnamed was unused at others) =
    let apart : i ≢ j =
      λ e. named (Has-name mine [] entities i a h (ap (get_elem? entities) e ∙ was) unused) in
    (λ e. apart (sym (some-injective j i e)), others i apart)
Outcome-apart mine other entities i _ differ named h (full unnamed used) =
    (λ e. none-ne-some i e, refl)

-- Two applications of different names of at most 15 bytes, of which the first is not empty, get
-- different entities: the call of the second returns another one than the call of the first did, and
-- leaves that as it is.
pub init_log_entity_apart :
    (first second : Text) (entities : List LogAttr) (i : ℕ)
    → length first < max_log_name_length
    → first ≢ []
    → first ≢ second
    → (init_log_entity first entities).0 ≡ some i
    → let left = (init_log_entity first entities).1 in
      ((init_log_entity second left).0 ≢ some i)
      × (get_elem? (init_log_entity second left).1 i ≡ get_elem? left i)
init_log_entity_apart first second entities i short named differ e =
    let r = init_log_entity first entities in
    Outcome-apart first second r.1 i (init_log_entity second r.1) differ named
      (Outcome-Has first entities r short (init_log_entity-Outcome first entities) i e)
      (init_log_entity-Outcome second r.1)
