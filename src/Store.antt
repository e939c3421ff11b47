-- ===== src/Store.antt =====
-- The memory that the event timers work on: the nodes of a singly linked list at addresses, and the
-- `timer_handle_t` that a caller's `void *handle` points to. A read or write through `NULL` or
-- through an address that holds no node (freed, or never given out) is a fault, and so is any use of
-- the handle after it was freed.
pub mod Yields
pub mod Chain
pub mod Handle
use libmisc.Base.{ℕ, Bool, false, Option, none, some, ◌==◌, if◌then◌else◌}
use libmisc.Base.Int.{ℤ}

abbrev pub Ptr : Type 0
Ptr = ℕ

abbrev pub null : Ptr
null = 0

-- `struct timer_event`: the link, and the other members.
pub record Node (A : Type 0) : Type 0 where
  pub next : Ptr
  pub body : A

abbrev pub node : {A : Type 0} → Ptr → A → Node A
node q a = record { next = q; body = a }

abbrev pub Heap : Type 0 → Type 0
Heap A = Ptr → Option (Node A)

unfoldable pub write : {A : Type 0} → Heap A → Ptr → Option (Node A) → Heap A
write h p c a = if a == p then c else h a

-- `events` and `number` are the members of the handle, which is allocated as long as `live` is
-- true; `env` is what the event functions work on.
pub record State (A E : Type 0) : Type 0 where
  pub heap : Heap A
  pub live : Bool
  pub events : Ptr
  pub number : ℤ
  pub env : E

pub data Run (S A : Type 0) : Type 0 where
  ok : A → S → Run S A
  fault : Run S A
  out_of_fuel : Run S A

abbrev pub Cmd : Type 0 → Type 0 → Type 0
Cmd S A = S → Run S A

abbrev pub pure : {S A : Type 0} → A → Cmd S A
pure a s = ok a s

module _ {S A B : Type 0} where
  abbrev pub and_then : Run S A → (A → Cmd S B) → Run S B
  and_then (ok a s) k = k a s
  and_then fault k = fault
  and_then out_of_fuel k = out_of_fuel

  infixl 5 ◌>>=◌ ◌>>◌
  abbrev pub ◌>>=◌ : Cmd S A → (A → Cmd S B) → Cmd S B
  m >>= k = λ s. and_then (m s) k

  abbrev pub ◌>>◌ : Cmd S A → Cmd S B → Cmd S B
  m >> k = m >>= λ _. k

module _ {A E : Type 0} where
  -- `*p`
  unfoldable pub load : Ptr → Cmd (State A E) (Node A)
  load p s = if p == null then fault else elim (s.heap p) [ none ↦ fault | some n ↦ ok n s ]

  -- The raw write: `some n` fills the address, `none` gives it back.
  abbrev pub store : Ptr → Option (Node A) → Cmd (State A E) (Unit {0})
  store p c s = ok tt (record s { heap = write s.heap p c })

  -- `p->next = q`
  unfoldable pub set_next : Ptr → Ptr → Cmd (State A E) (Unit {0})
  set_next p q = do n ← load p; store p (some (record n { next = q }))

  -- A write to the members other than `next`.
  unfoldable pub set_body : Ptr → A → Cmd (State A E) (Unit {0})
  set_body p a = do n ← load p; store p (some (record n { body = a }))

  -- `free(p)`
  unfoldable pub free : Ptr → Cmd (State A E) (Unit {0})
  free p = load p >> store p none

  -- The members of the handle.
  unfoldable pub get_events : Cmd (State A E) Ptr
  get_events s = if s.live then ok s.events s else fault

  unfoldable pub set_events : Ptr → Cmd (State A E) (Unit {0})
  set_events p s = if s.live then ok tt (record s { events = p }) else fault

  unfoldable pub get_number : Cmd (State A E) ℤ
  get_number s = if s.live then ok s.number s else fault

  unfoldable pub set_number : ℤ → Cmd (State A E) (Unit {0})
  set_number n s = if s.live then ok tt (record s { number = n }) else fault

  unfoldable pub free_handle : Cmd (State A E) (Unit {0})
  free_handle s = if s.live then ok tt (record s { live = false }) else fault
