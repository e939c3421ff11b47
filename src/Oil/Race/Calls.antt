-- ===== src/Oil/Race/Calls.antt =====
-- The steps of a process are the calls of `oil_shmCleanup`.
use libmisc.Base.{true, ℕ, ◌≡◌, refl, inl, inr, some, [], ◌∷◌, leb, Bool-cases}
use libmisc.Base.Int.{ℤ}
use libmisc.Oil.{System, shm_cleanup, shmctl_rmid}
use libmisc.Oil.Shared.{removes, removes-detach}
use libmisc.Oil.Race.{attached, ended, advance}

-- A process whose IPC_STAT says `n` and whose calls work ends its three steps as one that has removed the region exactly if
-- its call of `oil_shmCleanup` removes it, whatever the others do in between.
pub advance-shm_cleanup :
    (sys : System) (id : ℤ) (addr n i j : ℕ)
    → sys.attached id ≡ some n
    → advance j (advance i (advance n attached true) true) true
      ≡ ended (removes (shm_cleanup sys id addr))
unfolding advance shm_cleanup removes
advance-shm_cleanup sys id addr n i j counts = elim (Bool-cases (leb n 1)) [
  | inl few ↦ rw (shm_cleanup, counts, few, removes-detach addr (shmctl_rmid id ∷ [])) refl
  | inr many ↦ rw (shm_cleanup, counts, many, removes-detach addr []) refl
]
