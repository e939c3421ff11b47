-- ===== src/Oil.antt =====
-- The shared memory of misc_oil.c. What the system calls answer is an argument; the calls that are
-- made are results, in their order. Addresses are numbers; the messages to the log are left out.
pub mod Shared
pub mod Race
pub mod Syslog
mod Tests
use libmisc.Base.{
  ℕ, ◌-◌, ◌^◌, Bool, Option, none, some, List, [], ◌∷◌, ◌++◌, ◌==◌, leb, if◌then◌else◌,
}
use libmisc.Base.Int.{ℤ, pos, minus_one, eqb_ℤ}

-- The calls that change something, or may.
pub data Call : Type 0 where
  shmget : ℕ → Call
  shmat : ℤ → Call
  shmdt : ℕ → Call
  shmctl_stat shmctl_rmid : ℤ → Call

-- What the system answers: the identifier of a new region of a size, the address of an attached
-- region, and the number of processes that are attached.
pub record System : Type 0 where
  pub get : ℕ → Option ℤ
  pub attach : ℤ → Option ℕ
  pub attached : ℤ → Option ℕ

-- `NULL`, and `(void *) -1`.
abbrev pub null_addr : ℕ
null_addr = 0

abbrev pub failed_addr : ℕ
failed_addr = 2 ^ 32 - 1

-- `oil_shmDetach`
unfoldable pub shm_detach : ℕ → List Call
shm_detach shm_addr = if shm_addr == null_addr then [] else shmdt shm_addr ∷ []

-- `oil_shmCleanup`
unfoldable pub shm_cleanup : System → ℤ → ℕ → List Call
unfolding shm_detach
shm_cleanup sys shm_id shm_addr = elim (sys.attached shm_id) [
  | none ↦ shmctl_stat shm_id ∷ []
  | some nattch ↦
      shmctl_stat shm_id ∷ shm_detach shm_addr
      ++ (if leb nattch 1 then shmctl_rmid shm_id ∷ [] else [])
]

-- What `oil_shmInit` returns, and leaves in `*shmId` and `*shmAddr`, and the calls.
pub record ShmResult : Type 0 where
  pub ret : ℤ
  pub shm_id : ℤ
  pub shm_addr : ℕ
  pub calls : List Call

abbrev pub uninitialized_shm_id : ℤ
uninitialized_shm_id = minus_one

-- The part of `oil_shmInit` that attaches to a region that is there.
unfoldable pub shm_attach : System → ℤ → ShmResult
shm_attach sys shm_id = elim (sys.attach shm_id) [
  | none ↦ record {
    ret = minus_one;
    shm_id = shm_id;
    shm_addr = null_addr;
    calls = shmat shm_id ∷ [];
  }
  | some addr ↦ record { ret = pos 0; shm_id = shm_id; shm_addr = addr; calls = shmat shm_id ∷ [] }
]

-- The part that makes a new region; `shm_addr` is what `*shmAddr` holds before.
unfoldable pub shm_create : System → ℕ → ℕ → ShmResult
unfolding shm_cleanup
shm_create sys shm_size shm_addr = elim (sys.get shm_size) [
  | none ↦ record {
    ret = minus_one;
    shm_id = uninitialized_shm_id;
    shm_addr = shm_addr;
    calls = shmget shm_size ∷ [];
  }
  | some id ↦ elim (sys.attach id) [
    | none ↦ record {
      ret = pos 0;
      shm_id = id;
      shm_addr = failed_addr;
      calls = shmget shm_size ∷ shmat id ∷ shm_cleanup sys id null_addr;
    }
    | some addr ↦ record {
      ret = pos 0;
      shm_id = id;
      shm_addr = addr;
      calls = shmget shm_size ∷ shmat id ∷ [];
    }
  ]
]

-- `oil_shmInit`
unfoldable pub shm_init : System → ℕ → ℤ → ℕ → ShmResult
unfolding shm_attach shm_create
shm_init sys shm_size shm_id shm_addr =
    if eqb_ℤ shm_id uninitialized_shm_id
    then shm_create sys shm_size shm_addr
    else shm_attach sys shm_id
