-- ===== src/Timer/Program/Refines.antt =====
-- A program does what the specification says, call after call, and gives all its memory back.
use libmisc.Base.{ℕ, suc, ◌+◌, ◌≤◌, ◌≡◌, false, Option, List, [], length}
use libmisc.Base.Int.{ℤ}
use libmisc.Base.Text.{Text}
use libmisc.Store.{Ptr, Heap, State}
use libmisc.Store.Yields
use libmisc.Store.Yields.{Yields}
use libmisc.Store.Chain.{Cells, Chain}
use libmisc.Timer.{Event}
use libmisc.Timer.Program.{Call}
use libmisc.Timer.Program.Spec.{Step, Steps}
use libmisc.Timer.Program.Events.{events}
use libmisc.Timer.Program.Dangles.{Dangles}
use libmisc.Timer.Program.Owns.{Owns}

module _ {E : Type 0} (h₀ : Heap Event) (room : ℕ) (act : ℕ → ℕ → E → E) where
  -- The outcome of a call.
  record Performed (c : Call) (s : State Event E) (xs : Cells Event) (answer : Option ℤ)
      (t : State Event E) : Type 0 where
    cells : Cells Event
    owns : Owns h₀ t cells
    meets : Step room act c (events xs) s.env answer (events cells) t.env
    size : length cells ≤ suc (length xs)

  -- The outcome of some calls.
  record PerformedAll (cs : List Call) (s : State Event E) (xs : Cells Event)
      (answers : List (Option ℤ)) (t : State Event E) : Type 0 where
    cells : Cells Event
    owns : Owns h₀ t cells
    meets : Steps room act cs (events xs) s.env answers (events cells) t.env
    size : length cells ≤ length cs + length xs

  -- The outcome of the program: its answers and its data are those of some steps of the specification,
  -- the handle is gone, and the memory is that of before `timer_init`.
  pub record Ended (cs : List Call) (env : E) (answers : List (Option ℤ)) (t : State Event E)
      : Type 0 where
    left : List Event
    meets : Steps room act cs [] env answers left t.env
    dead : t.live ≡ false
    heap : (p : Ptr) → t.heap p ≡ h₀ p
