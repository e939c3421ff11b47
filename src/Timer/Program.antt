-- ===== src/Timer/Program.antt =====
-- A program that uses a timer: `timer_init`, calls of `timer_event_add`, `timer_event_delete` and
-- `timer_execute_expire_events`, and `timer_cleanup`. `malloc` is a function of the memory, and the event
-- functions are `callback`.
pub mod Spec
pub mod Events
pub mod Owns
pub mod Dangles
pub mod Refines
use libmisc.Base.{ℕ, Option, none, some, List, [], ◌∷◌}
use libmisc.Base.Int.{ℤ}
use libmisc.Base.Text.{Text}
use libmisc.Store.{Ptr, Node, Heap, State, Cmd, pure, ◌>>=◌, ◌>>◌}
use libmisc.Time.{Timeval}
use libmisc.Timer.{Event, event_add, delete, execute_loop, cleanup}

-- A call, with the time of its moment.
pub data Call : Type 0 where
  add : Timeval → ℕ → ℕ → ℤ → Option Text → Call
  remove : ℕ → ℕ → Call
  execute : Timeval → Call

module _ {E : Type 0} (malloc : Heap Event → Option (Ptr × Node Event))
    (callback : ℕ → ℕ → Cmd (State Event E) (Unit {0})) (k : ℕ) where
  -- The call, and what it returns.
  unfoldable pub perform : Call → Cmd (State Event E) (Option ℤ)
  perform (add now func ctx ms name) s =
      (event_add k now (malloc s.heap) func ctx ms name >>= λ r. pure (some r)) s
  perform (remove func ctx) s = (delete k func ctx >>= λ r. pure (some r)) s
  perform (execute now) s = (execute_loop callback k now >> pure none) s

  unfoldable pub perform_all : List Call → Cmd (State Event E) (List (Option ℤ))
  unfolding perform
  perform_all [] = pure []
  perform_all (c ∷ cs) = do answer ← perform c; answers ← perform_all cs; pure (answer ∷ answers)

  -- The calls behind `timer_init`, up to `timer_cleanup`.
  unfoldable pub program : List Call → Cmd (State Event E) (List (Option ℤ))
  unfolding perform_all
  program cs = do answers ← perform_all cs; cleanup k; pure answers
