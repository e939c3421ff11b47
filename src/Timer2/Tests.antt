-- ===== src/Timer2/Tests.antt =====
-- Two periodic events in memory, and the theorems at them.
use libmisc.Base.{ℕ, ◌<◌, ◌≡◌, refl, true, some, none, List, [], ◌∷◌, arith}
use libmisc.Base.Int.{ℤ, pos, ◌-ℤ◌, ◌+ℤ◌, ◌*ℕ◌}
use libmisc.Store.{null, node, write, State, Cmd, ok}
use libmisc.Store.Yields.{Yields}
use libmisc.Store.Chain.{Cells, nil, cons}
use libmisc.Time.{Timeval, timeval, is_le_timeval}
use libmisc.EventList.Find.{IsEventList, contains}
use libmisc.EventList.Delete.{Deleted}
use libmisc.EventList.Clear.{Cleared}
use libmisc.Timer2.{Event, matches, tv_add, delete, cleanup}
use libmisc.Timer2.Add.{delete-Deleted, cleanup_frees}
use libmisc.Timer2.Aged.{aged, HasRoom, IsHot}
use libmisc.Timer2.Subsecond.{EachRound, rounds-EachRound}
use libmisc.Timer2.Lifetime.{rounds, executions, is_used_up, Lives, rounds-Lives}

-- Every two seconds, from the second 4 on.
abbrev event : ℤ → ℕ → Event
event count func = record {
  interval = pos 2000;
  count = count;
  last_time = timeval (pos 4) (pos 0);
  func = func;
  ctx_arg = 0;
  name = [];
}

-- Of the given interval, forever.
abbrev hot : ℤ → ℕ → Event
hot interval func = record (event (pos 0) func) {
  interval = interval;
  last_time = timeval (pos 6) (pos 0);
}

abbrev Calls : Type 0
Calls = List (ℕ × ℕ)

abbrev cells : ℤ → Cells Event
cells count = (1, event (pos 0) 10) ∷ (2, event count 11) ∷ []

-- The second event has the given count.
abbrev two : ℤ → State Event Calls
two count = record {
  heap =
      write (write (λ _. none) 1 (some (node 2 (event (pos 0) 10)))) 2
        (some (node null (event count 11)));
  live = true;
  events = 1;
  number = pos 2;
  env = [];
}

two-IsEventList : (count : ℤ) → IsEventList (two count) (cells count)
unfolding write
two-IsEventList count = record {
  live = refl;
  chain =
      cons (record { ne_null = omega arith; holds = refl }) refl
        (cons (record { ne_null = omega arith; holds = refl }) refl nil);
  number = refl;
}

abbrev now : Timeval
now = timeval (pos 6) (pos 0)

present : contains (matches 11 0) (cells (pos 3)) ≡ true
unfolding contains
present = refl

delete-Deleted_example :
    Yields (Deleted (matches 11 0) (two (pos 3)) (cells (pos 3))) (delete 3 11 0 (two (pos 3)))
delete-Deleted_example =
    delete-Deleted 3 (two (pos 3)) 11 0 (two-IsEventList (pos 3)) (omega arith) present

cleanup_frees_example :
    Yields (λ _. Cleared (two (pos 3)) (cells (pos 3))) (cleanup 3 (two (pos 3)))
cleanup_frees_example = cleanup_frees 3 (two (pos 3)) (two-IsEventList (pos 3)) (omega arith)

-- An event function that notes its call.
abbrev note : ℕ → ℕ → Calls → Calls
note func ctx calls = (func, ctx) ∷ calls

abbrev noting : ℕ → ℕ → Cmd (State Event Calls) (Unit {0})
noting func ctx s = ok tt (record s { env = note func ctx s.env })

-- The first event is executed in both rounds, and so is the second one, whose count is 2.
rounds-Lives_example :
    Lives note
      (now ∷ timeval (pos 8) (pos 0) ∷ [])
      (two (pos 2))
      (cells (pos 2))
      (contains (is_used_up (now ∷ timeval (pos 8) (pos 0) ∷ [])) (cells (pos 2)))
      (rounds noting 3 (now ∷ timeval (pos 8) (pos 0) ∷ []) (two (pos 2)))
unfolding contains
rounds-Lives_example =
    rounds-Lives note noting (λ f c s. refl) (now ∷ timeval (pos 8) (pos 0) ∷ []) 3 (two (pos 2))
      (cells (pos 2)) (two-IsEventList (pos 2)) (refl, (refl, tt)) (omega arith)

used_up_in_two : contains (is_used_up (now ∷ timeval (pos 8) (pos 0) ∷ [])) (cells (pos 2)) ≡ true
unfolding contains executions is_le_timeval tv_add ◌-ℤ◌
used_up_in_two = refl

-- The first event of every half a second, the second one of every 250 milliseconds.
abbrev hot_cells : Cells Event
hot_cells = (1, hot (pos 500) 10) ∷ (2, hot (pos 250) 11) ∷ []

abbrev two_hot : State Event Calls
two_hot = record {
  heap =
      write (write (λ _. none) 1 (some (node 2 (hot (pos 500) 10)))) 2
        (some (node null (hot (pos 250) 11)));
  live = true;
  events = 1;
  number = pos 2;
  env = [];
}

two_hot-IsEventList : IsEventList two_hot hot_cells
unfolding write
two_hot-IsEventList = record {
  live = refl;
  chain =
      cons (record { ne_null = omega arith; holds = refl }) refl
        (cons (record { ne_null = omega arith; holds = refl }) refl nil);
  number = refl;
}

-- Three calls at the same time.
abbrev at_once : List Timeval
at_once = now ∷ now ∷ now ∷ []

hot-IsHot : (n func : ℕ) → n < 1000 → IsHot at_once (hot (pos n) func)
hot-IsHot n func short = record {
  n = n;
  short = short;
  interval = refl;
  forever = omega arith;
  reached = (omega arith, (omega arith, (omega arith, tt)));
}

hot-HasRoom : (n func : ℕ) → n < 1000 → HasRoom 3 (hot (pos n) func)
unfolding aged ◌*ℕ◌ ◌+ℤ◌ ◌-ℤ◌
hot-HasRoom n func short = record {
  low = omega arith;
  usec = ground (arith, short);
  count = ground arith;
}

rounds-EachRound_example :
    Yields (λ _. EachRound note 3 two_hot hot_cells) (rounds noting 3 at_once two_hot)
rounds-EachRound_example =
    rounds-EachRound note noting (λ f c s. refl) at_once 3 two_hot hot_cells two_hot-IsEventList
      (hot-IsHot 500 10 (omega arith), (hot-IsHot 250 11 (omega arith), tt))
      (hot-HasRoom 500 10 (omega arith), (hot-HasRoom 250 11 (omega arith), tt)) (omega arith)
