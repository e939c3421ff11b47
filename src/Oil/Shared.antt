-- ===== src/Oil/Shared.antt =====
-- When `oil_shmInit` can be trusted.
use mathlib.Core.Option.{none-ne-some, some-injective}
use libmisc.Base.{
  ℕ, ◌≤◌, ◌≡◌, ◌≢◌, refl, sym, ap, ◌∙◌, inl, inr, ◌↔◌, Bool, true, false, none, some, List, [], ◌∷◌,
  ◌++◌, ◌==◌, leb, leb→le, leb→gt, Bool-cases, Option-cases, arith,
}
use libmisc.Base.Int.{ℤ, pos, minus_one, eqb_ℤ}
use libmisc.Oil.{
  Call, shmget, shmat, shmdt, shmctl_stat, shmctl_rmid, System, shm_init, shm_attach, shm_create,
  shm_cleanup, shm_detach, null_addr, failed_addr, uninitialized_shm_id,
}

-- Addresses that the system attaches at are not the value that stands for a failure.
abbrev pub IsProper : System → Type 0
IsProper sys = (id : ℤ) (addr : ℕ) → sys.attach id ≡ some addr → addr ≢ failed_addr

-- What the new region's attachment comes to.
pub Unattached : System → ℕ → Type 0
Unattached sys shm_size = (id : ℤ) × (sys.get shm_size ≡ some id) × (sys.attach id ≡ none)

minus_one_not : minus_one ≡ pos 0 → ⊥
minus_one_not h = ground (arith, h)

shm_create_unusable :
    (sys : System) (shm_size shm_addr : ℕ)
    → IsProper sys
    → ((shm_create sys shm_size shm_addr).ret ≡ pos 0)
        × ((shm_create sys shm_size shm_addr).shm_addr ≡ failed_addr)
      ↔ Unattached sys shm_size
unfolding Unattached shm_create
shm_create_unusable sys shm_size shm_addr proper = elim (Option-cases (sys.get shm_size)) [
  | inl no_region ↦
      rw (shm_create, no_region)
        (λ h. absurd (minus_one_not (h.0)), λ u. absurd (none-ne-some u.0 u.1))
  | inr (id, made) ↦ elim (Option-cases (sys.attach id)) [
    | inl failed ↦ rw (shm_create, made, failed) (λ h. (id, refl, failed), λ u. (refl, refl))
    | inr (addr, at) ↦
        rw (shm_create, made, at)
          (
            λ h. absurd (proper id addr at h.1),
            λ u. absurd (none-ne-some addr (sym u.2 ∙ (ap sys.attach (same u.0 id u.1) ∙ at))),
          )
  ]
]
  where
    same : (a b : ℤ) → some b ≡ some a → a ≡ b
    same a b h = sym (some-injective b a h)

-- On a system that attaches no region at the address that stands for a failure, `oil_shmInit`
-- returns 0 with that address exactly if it was to make a new region, made one, and could not
-- attach it.
pub shm_init_unusable :
    (sys : System) (shm_size : ℕ) (shm_id : ℤ) (shm_addr : ℕ)
    → IsProper sys
    → ((shm_init sys shm_size shm_id shm_addr).ret ≡ pos 0)
        × ((shm_init sys shm_size shm_id shm_addr).shm_addr ≡ failed_addr)
      ↔ ((eqb_ℤ shm_id uninitialized_shm_id ≡ true) × Unattached sys shm_size)
unfolding shm_init shm_attach
shm_init_unusable sys shm_size shm_id shm_addr proper =
    elim (Bool-cases (eqb_ℤ shm_id uninitialized_shm_id)) [
      | inl fresh ↦
          let created = shm_create_unusable sys shm_size shm_addr proper in
          rw (shm_init, fresh) (λ h. (refl, created.0 h), λ u. created.1 u.1)
      | inr given ↦ elim (Option-cases (sys.attach shm_id)) [
        | inl failed ↦
            rw (shm_init, shm_attach, given, failed)
              (λ h. absurd (minus_one_not h.0), λ u. absurd (ground (arith, u.0)))
        | inr (addr, at) ↦
            rw (shm_init, shm_attach, given, at)
              (λ h. absurd (proper shm_id addr at h.1), λ u. absurd (ground (arith, u.0)))
      ]
    ]

-- Whether a region is removed.
unfoldable pub removes : List Call → Bool
removes [] = false
removes (shmctl_rmid id ∷ calls) = true
removes (shmget size ∷ calls) = removes calls
removes (shmat id ∷ calls) = removes calls
removes (shmdt addr ∷ calls) = removes calls
removes (shmctl_stat id ∷ calls) = removes calls

pub removes-detach :
    (addr : ℕ) (calls : List Call) → removes (shm_detach addr ++ calls) ≡ removes calls
unfolding removes shm_detach
removes-detach addr calls = elim (Bool-cases (addr == null_addr)) [
  | inl unset ↦ rw (shm_detach, unset) refl
  | inr set ↦ rw (shm_detach, set) refl
]

-- `oil_shmCleanup` removes the region exactly if its number of attached processes can be read, and
-- is at most one; the number is that of before it detaches itself.
pub shm_cleanup-removes :
    (sys : System) (id : ℤ) (addr : ℕ)
    → (removes (shm_cleanup sys id addr) ≡ true) ↔ ((n : ℕ) × (sys.attached id ≡ some n) × (n ≤ 1))
unfolding shm_cleanup removes
shm_cleanup-removes sys id addr = elim (Option-cases (sys.attached id)) [
  | inl unknown ↦
      rw (shm_cleanup, unknown)
        (λ h. absurd (ground (arith, h)), λ u. absurd (none-ne-some u.0 u.1))
  | inr (n, counted) ↦ elim (Bool-cases (leb n 1)) [
    | inl few ↦
        rw (shm_cleanup, counted, few, removes-detach addr (shmctl_rmid id ∷ []))
          (λ h. (n, refl, leb→le n 1 few), λ u. refl)
    | inr many ↦
        rw (shm_cleanup, counted, many, removes-detach addr [])
          (
            λ h. absurd (ground (arith, h)),
            λ u. absurd (omega (arith, leb→gt n 1 many, some-injective n u.0 u.1, u.2)),
          )
  ]
]
