-- ===== src/Store/Yields.antt =====
-- Total correctness of a run: it ends, without a fault, in a result and a state of which a
-- postcondition holds.
use libmisc.Base.{◌≡◌, ◌⊎◌}
use libmisc.Store.{Run, ok, fault, Cmd, and_then}

pub data Yields {S A : Type 0} (P : A → S → Type 0) : Run S A → Type 0 where
  yields : {a : A} {s : S} → P a s → Yields P (ok a s)

module _ {S A : Type 0} {P : A → S → Type 0} where
  -- What follows a run is right if it is right from every state that the run may end in.
  pub bind :
      {B : Type 0} {Q : B → S → Type 0} {r : Run S A} {k : A → Cmd S B}
      → Yields P r
      → ((a : A) (s : S) → P a s → Yields Q (k a s))
      → Yields Q (and_then r k)
  bind (yields p) rest = rest _ _ p

  -- Or something else holds that does not depend on how the run ends.
  pub bind_or :
      {B D : Type 0} {Q : B → S → Type 0} {r : Run S A} {k : A → Cmd S B}
      → Yields P r
      → ((a : A) (s : S) → P a s → Yields Q (k a s) ⊎ D)
      → Yields Q (and_then r k) ⊎ D
  bind_or (yields p) rest = rest _ _ p

  pub weaken :
      {Q : A → S → Type 0} {r : Run S A}
      → Yields P r
      → ((a : A) (s : S) → P a s → Q a s)
      → Yields Q r
  weaken (yields p) imp = yields (imp _ _ p)

  -- If what follows a run is a fault from every state that the run may end in, all of it is.
  pub bind_fault :
      {B : Type 0} {r : Run S A} {k : A → Cmd S B}
      → Yields P r
      → ((a : A) (s : S) → P a s → k a s ≡ fault)
      → and_then r k ≡ fault
  bind_fault (yields p) rest = rest _ _ p
