-- ===== src/Timer/Contract.antt =====
-- What the operations of misc_timer.c promise of a well formed timer.
use libmisc.Base.{
  ℕ, ◌<◌, ◌≡◌, refl, true, false, some, none, Option, [], ◌∷◌, ◌==◌, if◌then◌else◌, length,
}
use libmisc.Base.Int.{ℤ, pos, minus_one}
use libmisc.Base.Text.{Text}
use libmisc.Store.{Ptr, null, Heap, Node, State, ok}
use libmisc.Store.Yields
use libmisc.Store.Yields.{Yields, yields}
use libmisc.Store.Chain.{Cells, SameOutside, nil}
use libmisc.Time.{Timeval}
use libmisc.EventList.Find.{contains, find}
use libmisc.EventList.Unlink.{erase}
use libmisc.EventList.Delete.{event_delete-Deleted, event_delete-absent}
use libmisc.EventList.Clear.{Cleared, cleanup_loop-Cleared}
use libmisc.Timer.{Event, matches, new_event, init, event_add, delete, cleanup}
use libmisc.Timer.Insert.{insert}
use libmisc.Timer.Order.{
  IsTimer, insert-IsOrdered, insert-IsDistinct, erase-IsOrdered, erase-IsDistinct, contains-erase,
}
use libmisc.Timer.Add.{IsFresh, event_add-Added}

module _ {E : Type 0} where
  -- `timer_init` gives a handle without events, or fails with -1 where `calloc` does.
  pub init-IsTimer :
      (h : Heap Event) (env : E)
      → ((s : State Event E) × (init true h env ≡ (pos 0, some s))
          × IsTimer s []
          × (s.heap ≡ h)
          × (s.env ≡ env))
        × (init false h env ≡ (minus_one, none))
  unfolding init
  init-IsTimer h env = (
    (
      record { heap = h; live = true; events = null; number = pos 0; env = env },
      refl,
      record {
        list = record { live = refl; chain = nil; number = refl };
        ordered = tt;
        distinct = tt;
      },
      refl,
      refl,
    ),
    refl,
  )

  -- The outcome of a successful `timer_event_add`: the timer is well formed, and its list is the
  -- ordered insertion of the new event.
  pub record Extended (s : State Event E) (p : Ptr) (e : Event) (xs : Cells Event) (ret : ℤ)
      (t : State Event E) : Type 0 where
    pub result : ret ≡ pos 0
    pub timer : IsTimer t (insert (p, e) xs)
    pub same : SameOutside ((p, e) ∷ xs) s.heap t.heap
    pub env : t.env ≡ s.env

  -- The outcome of a successful `timer_event_delete`: the timer is well formed, its list lost the
  -- event with the function and the data, whose node was freed, and it has no further one.
  pub record Removed (func ctx : ℕ) (s : State Event E) (xs : Cells Event) (ret : ℤ)
      (t : State Event E) : Type 0 where
    pub result : ret ≡ pos 0
    pub timer : IsTimer t (erase (matches func ctx) xs)
    pub gone : contains (matches func ctx) (erase (matches func ctx) xs) ≡ false
    pub freed : t.heap (find (matches func ctx) xs) ≡ none
    pub same : SameOutside xs s.heap t.heap
    pub env : t.env ≡ s.env

module _ {E : Type 0} (k : ℕ) (s : State Event E) {xs : Cells Event} (func ctx : ℕ)
    (is : IsTimer s xs) (fuel : length xs < k) where
  -- `timer_event_add` of a function and data that no event has, in a block of its own, keeps the
  -- timer well formed and inserts the new event behind all that are not later.
  pub event_add-Extended :
      (now : Timeval) (ms : ℤ) (name : Option Text) {p : Ptr} {old : Node Event}
      → contains (matches func ctx) xs ≡ false
      → IsFresh s xs (p, old)
      → Yields
          (Extended s p (new_event now func ctx ms name old.body) xs)
          (event_add k now (some (p, old)) func ctx ms name s)
  unfolding new_event
  event_add-Extended now ms name {p} {old} absent fresh =
      let e : Event = new_event now func ctx ms name old.body in
      Yields.weaken (event_add-Added k now s func ctx ms name is.list fuel absent fresh) λ r t a.
        record {
          result = a.result;
          timer = record {
            list = a.list;
            ordered = insert-IsOrdered (p, e) xs is.ordered;
            distinct = insert-IsDistinct p e xs absent is.distinct;
          };
          same = a.same;
          env = a.env;
        }

  -- `timer_event_delete` of an event that is present removes it, and keeps the timer well formed.
  pub delete-Removed :
      contains (matches func ctx) xs ≡ true → Yields (Removed func ctx s xs) (delete k func ctx s)
  unfolding delete
  delete-Removed present =
      let f = matches func ctx in
      Yields.weaken (event_delete-Deleted f k s is.list present fuel) λ r t d. record {
        result = d.result;
        timer = record {
          list = d.list;
          ordered = erase-IsOrdered f xs is.ordered;
          distinct = erase-IsDistinct f xs is.distinct;
        };
        gone = contains-erase func ctx xs is.distinct;
        freed = d.freed;
        same = d.same;
        env = d.env;
      }

  -- `timer_event_delete` where no event has the function and the data changes nothing; its result
  -- is -1 only if there is no event at all.
  pub delete-absent :
      contains (matches func ctx) xs ≡ false
      → delete k func ctx s ≡ ok (if s.events == null then minus_one else pos 0) s
  unfolding delete
  delete-absent absent = event_delete-absent (matches func ctx) k s is.list absent fuel

-- `timer_cleanup` frees the node of each event and the handle, each once, and nothing else.
pub cleanup-Cleared :
    {E : Type 0} (k : ℕ) (s : State Event E) {xs : Cells Event}
    → IsTimer s xs
    → length xs < k
    → Yields (λ _. Cleared s xs) (cleanup k s)
unfolding cleanup
cleanup-Cleared k s is fuel = cleanup_loop-Cleared k s is.list fuel
