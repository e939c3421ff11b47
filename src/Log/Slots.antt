-- ===== src/Log/Slots.antt =====
-- `initLogEntity`: the attributes of an application in the shared memory, whose MAX_LOG_ENTITY
-- entities are a list.
use mathlib.Core.Path.{subst}
use mathlib.Core.Option.{none-ne-some}
use libmisc.Base.{
  ℕ, zero, suc, ◌≡◌, refl, sym, ap, inl, inr, ◌⊎◌, true, false, Option, none, some, List, [], ◌∷◌,
  if◌then◌else◌, Bool-cases, All,
}
use libmisc.Base.Text.{Text, text_eq, truncated}
use libmisc.Log.{
  LogAttr, max_log_name_length, default_log_level, default_log_destination, default_log_header_mask,
}

-- The first loop of `initLogEntity`, which searches an entity of the application.
unfoldable pub find_named : Text → List LogAttr → Option ℕ
find_named app_name [] = none
find_named app_name (a ∷ as') =
    let rest = find_named app_name as' in
    if text_eq a.log_application_name app_name
    then some 0
    else elim rest [ none ↦ none | some i ↦ some (suc i) ]

-- The second loop, which searches an unused one.
unfoldable pub find_unused : List LogAttr → Option ℕ
find_unused [] = none
find_unused (a ∷ as') =
    let rest = find_unused as' in
    if text_eq a.log_application_name []
    then some 0
    else elim rest [ none ↦ none | some i ↦ some (suc i) ]

-- A new entity.
unfoldable pub fresh_entity : Text → LogAttr
fresh_entity app_name = record {
  log_application_name = truncated max_log_name_length app_name;
  log_level = default_log_level;
  log_destination = default_log_destination;
  log_header_mask = default_log_header_mask;
}

abbrev pub put : ℕ → LogAttr → List LogAttr → List LogAttr
put i a [] = []
put zero a (b ∷ bs) = a ∷ bs
put (suc i) a (b ∷ bs) = b ∷ put i a bs

-- `initLogEntity` over the array of entities: the index of the result, and the array.
unfoldable pub init_log_entity : Text → List LogAttr → Option ℕ × List LogAttr
unfolding find_named find_unused fresh_entity
init_log_entity app_name entities = elim (find_named app_name entities) [
  | some i ↦ (some i, entities)
  | none ↦ elim (find_unused entities) [
    | none ↦ (none, entities)
    | some i ↦ (some i, put i (fresh_entity app_name) entities)
  ]
]

-- The entity at an index.
abbrev pub get_elem? : List LogAttr → ℕ → Option LogAttr
get_elem? [] i = none
get_elem? (a ∷ as') zero = some a
get_elem? (a ∷ as') (suc i) = get_elem? as' i

-- No entity has the name.
abbrev pub IsUnnamed : Text → List LogAttr → Type 0
IsUnnamed name = All (λ a. text_eq a.log_application_name name ≡ false)

-- What the search for an entity can come to.
pub data Outcome (app_name : Text) (entities : List LogAttr)
    : Option ℕ × List LogAttr → Type 0 where
  found :
      (i : ℕ) (a : LogAttr)
      → get_elem? entities i ≡ some a
      → text_eq a.log_application_name app_name ≡ true
      → Outcome app_name entities (some i, entities)
  claimed :
      (i : ℕ) (a : LogAttr) (entities' : List LogAttr)
      → IsUnnamed app_name entities
      → get_elem? entities i ≡ some a
      → text_eq a.log_application_name [] ≡ true
      → get_elem? entities' i ≡ some (fresh_entity app_name)
      → ((j : ℕ) → (j ≡ i → ⊥) → get_elem? entities' j ≡ get_elem? entities j)
      → Outcome app_name entities (some i, entities')
  full :
      IsUnnamed app_name entities
      → IsUnnamed [] entities
      → Outcome app_name entities (none, entities)

-- What a search finds, it finds in the array; where it fails, no entity has the name.
abbrev pub FindCases : Text → List LogAttr → Type 0
FindCases name entities =
    (find_named name entities ≡ none) × IsUnnamed name entities
    ⊎ ((i : ℕ) × (a : LogAttr) × (find_named name entities ≡ some i)
        × (get_elem? entities i ≡ some a)
        × (text_eq a.log_application_name name ≡ true))

pub find_named-cases : (name : Text) (entities : List LogAttr) → FindCases name entities
unfolding find_named
find_named-cases name [] = inl (refl, tt)
find_named-cases name (a ∷ rest) = elim (Bool-cases (text_eq a.log_application_name name)) [
  | inl same ↦ rw same (inr (0, a, refl, refl, same))
  | inr other ↦ rw other (elim (find_named-cases name rest) [
    | inl (fails, unnamed) ↦ rw fails (inl (refl, (refl, unnamed)))
    | inr (i, b, finds, at, same) ↦ rw finds (inr (suc i, b, refl, at, same))
  ])
]

pub find_unused-find_named :
    (entities : List LogAttr) → find_unused entities ≡ find_named [] entities
unfolding find_unused find_named
find_unused-find_named [] = refl
find_unused-find_named (a ∷ rest) = rw (find_unused-find_named rest) refl

get_elem?-put :
    (i : ℕ) (a b : LogAttr) (entities : List LogAttr)
    → get_elem? entities i ≡ some a
    → get_elem? (put i b entities) i ≡ some b
get_elem?-put i a b [] h = absurd (none-ne-some a h)
get_elem?-put zero a b (x ∷ xs) h = refl
get_elem?-put (suc i) a b (x ∷ xs) h = get_elem?-put i a b xs h

get_elem?-put_other :
    (i j : ℕ) (b : LogAttr) (entities : List LogAttr)
    → (j ≡ i → ⊥)
    → get_elem? (put i b entities) j ≡ get_elem? entities j
get_elem?-put_other i j b [] h = refl
get_elem?-put_other zero zero b (x ∷ xs) h = absurd (h refl)
get_elem?-put_other zero (suc j) b (x ∷ xs) h = refl
get_elem?-put_other (suc i) zero b (x ∷ xs) h = refl
get_elem?-put_other (suc i) (suc j) b (x ∷ xs) h =
    get_elem?-put_other i j b xs (λ same. h (ap suc same))

-- The three ways through `initLogEntity`.
pub init_named :
    (app_name : Text) (entities : List LogAttr) (i : ℕ)
    → find_named app_name entities ≡ some i
    → init_log_entity app_name entities ≡ (some i, entities)
unfolding init_log_entity
init_named app_name entities i finds = rw (init_log_entity, finds) refl

pub init_unused :
    (app_name : Text) (entities : List LogAttr) (i : ℕ)
    → find_named app_name entities ≡ none
    → find_named [] entities ≡ some i
    → init_log_entity app_name entities ≡ (some i, put i (fresh_entity app_name) entities)
unfolding init_log_entity
init_unused app_name entities i fails finds =
    rw (init_log_entity, fails, find_unused-find_named entities, finds) refl

pub init_full :
    (app_name : Text) (entities : List LogAttr)
    → find_named app_name entities ≡ none
    → find_named [] entities ≡ none
    → init_log_entity app_name entities ≡ (none, entities)
unfolding init_log_entity
init_full app_name entities fails none_left =
    rw (init_log_entity, fails, find_unused-find_named entities, none_left) refl

-- An application gets the entity of its name; without one, an unused entity with the defaults,
-- where all others stay; with neither, nothing, and nothing changes.
pub init_log_entity-Outcome :
    (app_name : Text) (entities : List LogAttr)
    → Outcome app_name entities (init_log_entity app_name entities)
init_log_entity-Outcome app_name entities = elim (find_named-cases app_name entities) [
  | inr (i, a, finds, at, same) ↦
      subst (λ r. Outcome app_name entities r) (sym (init_named app_name entities i finds))
        (found i a at same)
  | inl (fails, unnamed) ↦ elim (find_named-cases [] entities) [
    | inl (none_left, used) ↦
        subst (λ r. Outcome app_name entities r) (sym (init_full app_name entities fails none_left))
          (full unnamed used)
    | inr (i, a, finds, at, unused) ↦
        let fresh = fresh_entity app_name in
        subst (λ r. Outcome app_name entities r) (sym (init_unused app_name entities i fails finds))
          (claimed i a (put i fresh entities) unnamed at unused
            (get_elem?-put i a fresh entities at)
            (λ j other. get_elem?-put_other i j fresh entities other))
  ]
]
