-- ===== src/Timer/Tests.antt =====
-- Two events in memory, and the theorems at them.
use libmisc.Base.{
  ℕ, Option, ◌≡◌, refl, true, false, some, none, List, [], ◌∷◌, arith, ◌==◌, if◌then◌else◌,
}
use libmisc.Base.Int.{pos}
use libmisc.Store.{
  Ptr, Heap, null, Node, node, write, State, Cmd, ok, load, set_next, free, get_events, set_events,
  get_number, set_number,
}
use libmisc.Store.Yields.{Yields, yields}
use libmisc.Store.Chain.{Cells, Points, nil, cons}
use libmisc.Time.{Timeval, timeval, is_earlier_than}
use libmisc.EventList.Find.{IsEventList, contains}
use libmisc.Timer.{Event, matches, new_event, event_add, delete, execute_loop}
use libmisc.Timer.Order.{IsTimer}
use libmisc.Timer.Add.{IsFresh}
use libmisc.Timer.Contract.{Extended, Removed, event_add-Extended, delete-Removed}
use libmisc.Timer.Execute.{Left, Remains, due_count, execute_loop-Remains}
use libmisc.Timer.Expire.{Fired, expired, execute_loop-Fired}
use libmisc.Timer.Reentry.{cancel, cancel-Behaves}
use libmisc.Timer.Dangling.{event_add_dangling}
use libmisc.Timer.Program.{Call, add, remove, execute}
use libmisc.Timer.Program.Dangles.{Dangles}

abbrev event : ℕ → ℕ → Event
event sec func = record { expire = timeval (pos sec) (pos 0); func = func; ctx_data = 0; name = [] }

abbrev cells : Cells Event
cells = (1, event 5 10) ∷ (2, event 7 11) ∷ []

-- The calls of event functions, the last first.
abbrev Calls : Type 0
Calls = List (ℕ × ℕ)

abbrev two : State Event Calls
two = record {
  heap = write (write (λ _. none) 1 (some (node 2 (event 5 10)))) 2 (some (node null (event 7 11)));
  live = true;
  events = 1;
  number = pos 2;
  env = [];
}

abbrev nothing : State Event Calls
nothing = record { heap = λ _. none; live = true; events = null; number = pos 0; env = [] }

two-IsTimer : IsTimer two cells
unfolding write is_earlier_than
two-IsTimer = record {
  list = record {
    live = refl;
    chain =
        cons (record { ne_null = omega arith; holds = refl }) refl
          (cons (record { ne_null = omega arith; holds = refl }) refl nil);
    number = refl;
  };
  ordered = ((refl, tt), (tt, tt));
  distinct = ((refl, tt), (tt, tt));
}

nothing-IsEventList : IsEventList nothing []
nothing-IsEventList = record { live = refl; chain = nil; number = refl }

abbrev junk : Node Event
junk = node 77 (event 0 0)

fresh : IsFresh two cells (3, junk)
unfolding write
fresh = record { ne_null = omega arith; unused = refl; clean = λ e. cc }

abbrev now : Timeval
now = timeval (pos 6) (pos 0)

absent : contains (matches 12 0) cells ≡ false
unfolding contains
absent = refl

present : contains (matches 11 0) cells ≡ true
unfolding contains
present = refl

event_add-Extended_example :
    Yields
      (Extended two 3 (new_event now 12 0 (pos 500) none junk.body) cells)
      (event_add 3 now (some (3, junk)) 12 0 (pos 500) none two)
event_add-Extended_example =
    event_add-Extended 3 two 12 0 two-IsTimer (omega arith) now (pos 500) none absent fresh

delete-Removed_example : Yields (Removed 11 0 two cells) (delete 3 11 0 two)
delete-Removed_example = delete-Removed 3 two 11 0 two-IsTimer (omega arith) present

-- The event function that cancels the other one.
abbrev other_one : ℕ → ℕ → ℕ × ℕ
other_one func ctx = (if func == 10 then 11 else 10, 0)

execute_loop-Remains_example :
    Yields
      (λ _. Remains (timeval (pos 9) (pos 0)) (cancel other_one) 0)
      (execute_loop (cancel other_one) 3 (timeval (pos 9) (pos 0)) two)
unfolding due_count is_earlier_than
execute_loop-Remains_example =
    execute_loop-Remains (timeval (pos 9) (pos 0)) (cancel other_one) 3 two
      (cancel-Behaves (timeval (pos 9) (pos 0)) other_one) two-IsTimer (omega arith)

-- An event function that notes its call.
abbrev note : ℕ → ℕ → Calls → Calls
note func ctx calls = (func, ctx) ∷ calls

abbrev noting : ℕ → ℕ → Cmd (State Event Calls) (Unit {0})
noting func ctx s = ok tt (record s { env = note func ctx s.env })

execute_loop-Fired_example : Yields (λ _. Fired now note two cells) (execute_loop noting 2 now two)
unfolding expired is_earlier_than
execute_loop-Fired_example =
    execute_loop-Fired now note noting (λ f c s. refl) 2 two two-IsTimer.list (omega arith)

event_add_dangling_example :
    Yields
      (λ r t. (r ≡ pos 0) × ((xs : Cells Event) → ¬ IsEventList t xs))
      (event_add 1 now (some (3, junk)) 12 0 (pos 500) none nothing)
event_add_dangling_example =
    event_add_dangling 1 now nothing 12 0 (pos 500) none 3 junk nothing-IsEventList (omega arith)
      (omega arith) refl (omega arith) (omega arith) refl

-- At the time 6 the first of the two events is executed.
one_called : Yields (λ _ t. (t.env ≡ (10, 0) ∷ []) × (t.events ≡ 2)) (execute_loop noting 2 now two)
unfolding execute_loop get_events load set_events set_next get_number set_number free write
    is_earlier_than
one_called = yields (refl, refl)

-- The state in which the function of the first event runs.
abbrev first_runs : State Event Calls
first_runs = record two {
  heap = write two.heap 1 (some (node null (event 5 10)));
  events = 2;
  number = pos 1;
}

first_runs-IsTimer : IsTimer first_runs ((2, event 7 11) ∷ [])
unfolding write
first_runs-IsTimer = record {
  list = record {
    live = refl;
    chain = cons (record { ne_null = omega arith; holds = refl }) refl nil;
    number = refl;
  };
  ordered = (tt, tt);
  distinct = (tt, tt);
}

first_runs-Points : Points first_runs.heap 1 (event 5 10) null
unfolding write
first_runs-Points = record { ne_null = omega arith; holds = refl }

cancel-Behaves_example :
    Yields
      (λ _. Left now (cancel {E = Calls} other_one) first_runs ((2, event 7 11) ∷ []) 1)
      (cancel other_one 10 0 first_runs)
cancel-Behaves_example =
    cancel-Behaves now other_one 10 0 first_runs ((2, event 7 11) ∷ []) 1 (event 5 10)
      first_runs-IsTimer refl first_runs-Points

-- `malloc` with two blocks.
abbrev pick : Option (Node Event) → Option (Node Event) → Option (Ptr × Node Event)
pick none second = some (1, node null (event 0 0))
pick (some n) none = some (2, node null (event 0 0))
pick (some n) (some m) = none

abbrev pool : Heap Event → Option (Ptr × Node Event)
pool h = pick (h 1) (h 2)

abbrev calls : List Call
calls =
    add now 12 0 (pos 500) none
    ∷ add now 12 0 (pos 5) none
    ∷ add now 10 3 (pos 100) none
    ∷ execute (timeval (pos 9) (pos 0))
    ∷ remove 12 0
    ∷ []
