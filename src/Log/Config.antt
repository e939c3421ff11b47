-- ===== src/Log/Config.antt =====
-- How an application's attributes are found in the configuration.
use mathlib.Core.List.{append-nil, append_assoc}
use libmisc.Base.{
  ℕ, zero, suc, ◌+◌, ◌-◌, ◌≤◌, ◌≡◌, ◌≢◌, refl, sym, ap, ◌∙◌, inl, inr, ◌⊎◌, true, none, [], ◌∷◌,
  ◌++◌, ◌==◌, ==_iff, if◌then◌else◌, Bool-cases, length, take, All, arith,
}
use libmisc.Base.Text.{Text, truncated}
use libmisc.Base.Text.Take.{take-append, take-take, take-append_take}
use libmisc.Log.{
  LogAttr, Nvram, update_log_attr, max_log_name_length, log_init, configured, attr_key,
  get_app_log_attr, base_name, level_pendix, dest_pendix, mask_pendix, get_cfg_value, is_null_str,
}

take-agree :
    (n k c : ℕ) (s t : Text) → take k s ≡ take k t → n ≤ suc k → take n (c ∷ s) ≡ take n (c ∷ t)
take-agree zero k c s t agree h = refl
take-agree (suc n) k c s t agree h =
    ap (λ l. c ∷ l)
      (sym (take-take n k s (omega arith)) ∙ ap (take n) agree ∙ take-take n k t (omega arith))

-- Keys agree if the texts agree as far as the name leaves room.
attr_key-agree :
    (app_name s t : Text) (k : ℕ)
    → take k s ≡ take k t
    → 14 ≤ length app_name + k
    → attr_key app_name s ≡ attr_key app_name t
unfolding attr_key truncated
attr_key-agree app_name s t k agree long =
    take-append 15 app_name (b'_' ∷ s)
    ∙ ap (λ r. take 15 app_name ++ r)
        (take-agree (15 - length app_name) k b'_' s t agree (omega arith))
    ∙ sym (take-append 15 app_name (b'_' ∷ t))

-- The names of the three attributes start with `log_`: an application whose name has ten bytes or
-- more looks them all up under one key.
pub attr_key_collide :
    (app_name : Text)
    → 10 ≤ length app_name
    → (attr_key app_name level_pendix ≡ attr_key app_name dest_pendix)
      × (attr_key app_name dest_pendix ≡ attr_key app_name mask_pendix)
attr_key_collide app_name long = (
  attr_key-agree app_name level_pendix dest_pendix 4 refl (omega arith),
  attr_key-agree app_name dest_pendix mask_pendix 4 refl (omega arith),
)

-- For an application whose name has ten bytes or more, the three attributes are looked up with the
-- same result.
pub get_app_log_attr_collide :
    (nv : Nvram) (app_name : Text)
    → 10 ≤ length app_name
    → (get_app_log_attr nv app_name level_pendix ≡ get_app_log_attr nv app_name dest_pendix)
      × (get_app_log_attr nv app_name dest_pendix ≡ get_app_log_attr nv app_name mask_pendix)
unfolding get_app_log_attr
get_app_log_attr_collide nv app_name long =
    let keys = attr_key_collide app_name long in
    (
      ap (λ k. if is_null_str (get_cfg_value nv k) then none else get_cfg_value nv k) keys.0,
      ap (λ k. if is_null_str (get_cfg_value nv k) then none else get_cfg_value nv k) keys.1,
    )

-- A name that is cut off to fit the attributes gives the same keys.
attr_key-truncated :
    (app_name pendix : Text)
    → attr_key (truncated max_log_name_length app_name) pendix ≡ attr_key app_name pendix
unfolding attr_key truncated
attr_key-truncated app_name pendix = take-append_take 15 15 app_name _ (omega arith)

get_app_log_attr-truncated :
    (nv : Nvram) (app_name pendix : Text)
    → get_app_log_attr nv (truncated max_log_name_length app_name) pendix
      ≡ get_app_log_attr nv app_name pendix
unfolding get_app_log_attr
get_app_log_attr-truncated nv app_name pendix =
    ap (λ k. if is_null_str (get_cfg_value nv k) then none else get_cfg_value nv k)
      (attr_key-truncated app_name pendix)

-- What `log_init` has set up, `updateLogAttr` leaves as it is while the configuration stays.
pub update_log_attr-log_init :
    (nv : Nvram) (appname : Text) (a : LogAttr)
    → update_log_attr nv (log_init nv appname a) ≡ log_init nv appname a
unfolding update_log_attr log_init configured
update_log_attr-log_init nv appname a =
    let same = get_app_log_attr-truncated nv (base_name appname appname) in
    rw (same level_pendix, same dest_pendix, same mask_pendix) refl

-- A text that is empty or ends with a slash.
abbrev IsFront : Text → Type 0
IsFront front = (front ≡ []) ⊎ ((r : Text) × (front ≡ r ++ b'/' ∷ []))

-- The last component of a path.
pub record IsBaseName (path base : Text) : Type 0 where
  front : Text
  front_ends : IsFront front
  whole : front ++ base ≡ path
  slashless : All (λ c. c ≢ b'/') base

All-snoc : (s : Text) (c : ℕ) → All (λ x. x ≢ b'/') s → c ≢ b'/' → All (λ x. x ≢ b'/') (s ++ c ∷ [])
All-snoc [] c h hc = (hc, tt)
All-snoc (x ∷ s) c h hc = (h.0, All-snoc s c h.1 hc)

-- The loop, between the text behind the last slash and what is left to read.
base_name_loop :
    (front read s : Text)
    → IsFront front
    → All (λ c. c ≢ b'/') read
    → IsBaseName (front ++ (read ++ s)) (base_name (read ++ s) s)
unfolding base_name
base_name_loop front read [] ends clean =
    rw (append-nil read)
      (record { front = front; front_ends = ends; whole = refl; slashless = clean })
base_name_loop front read (c ∷ s) ends clean = elim (Bool-cases (c == b'/')) [
  | inl slash ↦
      rw (slash, moved, sym (append_assoc front (read ++ c ∷ []) s))
        (base_name_loop (front ++ (read ++ c ∷ [])) [] s (inr (front ++ read, ends_here slash)) tt)
  | inr other ↦
      rw (other, moved)
        (base_name_loop front (read ++ c ∷ []) s ends (All-snoc read c clean (ground arith)))
]
  where
    moved : read ++ c ∷ s ≡ (read ++ c ∷ []) ++ s
    moved = sym (append_assoc read (c ∷ []) s)

    ends_here : (c == b'/') ≡ true → front ++ (read ++ c ∷ []) ≡ front ++ read ++ b'/' ∷ []
    ends_here slash =
        sym (append_assoc front read (c ∷ []))
        ∙ ap (λ x. front ++ read ++ x ∷ []) ((==_iff c b'/').0 slash)

-- The name that `log_init` takes has no slash, and follows in the path behind a part that is empty or
-- ends with a slash.
pub base_name-IsBaseName : (path : Text) → IsBaseName path (base_name path path)
base_name-IsBaseName path = base_name_loop [] [] path (inl refl) tt
