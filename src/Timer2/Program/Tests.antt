-- ===== src/Timer2/Program/Tests.antt =====
-- A program with two events, of which one is used up.
use libmisc.Base.{ℕ, ◌≡◌, ◌≢◌, true, Option, some, none, List, [], ◌∷◌}
use libmisc.Base.Int.{ℤ, pos}
use libmisc.Store.{Ptr, null, Node, node, Heap, State, Cmd, ok}
use libmisc.Time.{Timeval, timeval}
use libmisc.Timer2.{Event}
use libmisc.Timer2.Program.{Call, add, remove, execute}

abbrev event : ℤ → ℕ → Event
event count func = record {
  interval = pos 2000;
  count = count;
  last_time = timeval (pos 4) (pos 0);
  func = func;
  ctx_arg = 0;
  name = [];
}

-- The calls of event functions, the last first.
abbrev Calls : Type 0
Calls = List (ℕ × ℕ)

abbrev note : ℕ → ℕ → Calls → Calls
note func ctx calls = (func, ctx) ∷ calls

abbrev noting : ℕ → ℕ → Cmd (State Event Calls) (Unit {0})
noting func ctx s = ok tt (record s { env = note func ctx s.env })

abbrev now : Timeval
now = timeval (pos 6) (pos 0)

-- `malloc` with two blocks.
abbrev pick : Option (Node Event) → Option (Node Event) → Option (Ptr × Node Event)
pick none second = some (1, node null (event (pos 0) 0))
pick (some n) none = some (2, node null (event (pos 0) 0))
pick (some n) (some m) = none

abbrev pool : Heap Event → Option (Ptr × Node Event)
pool h = pick (h 1) (h 2)

-- What is known of a block that it gives.
abbrev IsBlock : Heap Event → Ptr × Node Event → Type 0
IsBlock h b = (b.0 ≢ null) × (h b.0 ≡ none)

abbrev nothing : State Event Calls
nothing = record { heap = λ _. none; live = true; events = null; number = pos 0; env = [] }

-- The second event is executed for the last time.
abbrev calls : List Call
calls =
    add now 12 0 (pos 500) (pos 0) none
    ∷ add now 11 0 (pos 500) (pos 1) none
    ∷ remove 7 7
    ∷ execute (timeval (pos 8) (pos 0))
    ∷ []
