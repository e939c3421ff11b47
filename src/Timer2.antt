-- ===== src/Timer2.antt =====
-- misc_timer2.c: periodic events in a singly linked list, the newest first. The arguments `env`,
-- `callback`, `now` and `block` are those of the module `Timer`. The counters are integers without a
-- bound; the code decrements a count at each execution, and a count that begins at 0 stays below 0.
pub mod Add
pub mod Walk
pub mod Execute
pub mod Fault
pub mod Lifetime
pub mod Aged
pub mod Subsecond
pub mod Program
mod Tests
use libmisc.Base.{ℕ, zero, suc, Bool, true, false, ◌&&◌, Option, none, some, ◌==◌, if◌then◌else◌}
use libmisc.Base.Int.{ℤ, pos, minus_one, ◌+ℤ◌, ◌-ℤ◌, ◌*ℕ◌, tdiv, tmod, eqb_ℤ}
use libmisc.Base.Text.{Text, truncated}
use libmisc.Store.{
  Ptr, null, Node, Heap, State, Cmd, out_of_fuel, pure, ◌>>=◌, ◌>>◌, load, store, set_next,
  set_body, get_events, set_events, get_number, set_number,
}
use libmisc.Time.{Timeval, msecs_in_sec, is_le_timeval}
use libmisc.EventList.{is_event_present, event_delete, cleanup_loop}

-- `timerEvent_t` without its link.
pub record Event : Type 0 where
  pub interval : ℤ
  pub count : ℤ
  pub last_time : Timeval
  pub func : ℕ
  pub ctx_arg : ℕ
  pub name : Text

abbrev pub event_timer_name_length : ℕ
event_timer_name_length = 16

abbrev pub matches : ℕ → ℕ → Event → Bool
matches func ctx_arg e = e.func == func && e.ctx_arg == ctx_arg

-- `tvAdd`
unfoldable pub tv_add : Timeval → ℤ → Timeval
unfolding tdiv tmod ◌*ℕ◌ ◌+ℤ◌
tv_add tv ms =
    let sec = tdiv ms msecs_in_sec in
    let msec = tmod ms msecs_in_sec *ℕ msecs_in_sec in
    record { sec = tv.sec +ℤ sec; usec = tv.usec +ℤ msec }

-- `addMillionSec`, which nothing calls: the time is changed in place, a field at a time.
unfoldable pub add_million_sec : Timeval → ℤ → Timeval
unfolding tdiv tmod ◌*ℕ◌ ◌+ℤ◌
add_million_sec tv ms =
    let later : Timeval = record tv { sec = tv.sec +ℤ tdiv ms msecs_in_sec } in
    record later { usec = later.usec +ℤ tmod ms msecs_in_sec *ℕ msecs_in_sec }

-- `snprintf(new->name, sizeof(new->name), "%s", name)`, unless `name` is `NULL`.
abbrev pub set_name : Option Text → Text → Text
set_name none old = old
set_name (some s) old = truncated event_timer_name_length s

-- The members of a new event; `old` is what the block held.
unfoldable pub new_event : Timeval → ℕ → ℕ → ℤ → ℤ → Option Text → Event → Event
new_event now func ctx_arg interval count name old = record {
  interval = interval;
  count = count;
  last_time = now;
  func = func;
  ctx_arg = ctx_arg;
  name = set_name name old.name;
}

module _ {E : Type 0} where
  -- `mTimer_init`
  pub init : Bool → Heap Event → E → ℤ × Option (State Event E)
  init allocated h env =
      if allocated
      then (
        pos 0,
        some (record { heap = h; live = true; events = null; number = pos 0; env = env }),
      )
      else (minus_one, none)

  -- The insertion of the new event.
  unfoldable pub link : Ptr → Cmd (State Event E) (Unit {0})
  link new = do
    number ← get_number
    if eqb_ℤ number (pos 0)
        then set_events new
        else do curr ← get_events; set_next new curr; set_events new

  -- What follows the allocation.
  unfoldable pub add_block :
      Timeval → Ptr × Node Event → ℕ → ℕ → ℤ → ℤ → Option Text → Cmd (State Event E) ℤ
  unfolding link
  add_block now (new, old) func ctx_arg interval count name = do
    store new (some old)
    set_body new (new_event now func ctx_arg interval count name old.body)
    link new
    number ← get_number
    set_number (number +ℤ pos 1)
    pure (pos 0)

  -- `isEventPresent`
  abbrev pub is_present : ℕ → ℕ → ℕ → Cmd (State Event E) Bool
  is_present k func ctx_arg = is_event_present k (matches func ctx_arg)

  -- `mTimer_add`
  unfoldable pub add :
      ℕ → Timeval → Option (Ptr × Node Event) → ℕ → ℕ → ℤ → ℤ → Option Text → Cmd (State Event E) ℤ
  unfolding add_block
  add k now block func ctx_arg interval count name = do
    present ← is_present k func ctx_arg
    if present then pure minus_one else elim block [
      | none ↦ pure minus_one
      | some b ↦ add_block now b func ctx_arg interval count name
    ]

  -- `mTimer_delete`
  unfoldable pub delete : ℕ → ℕ → ℕ → Cmd (State Event E) ℤ
  delete k func ctx_arg = event_delete k (matches func ctx_arg)

  -- `mTimer_cleanup`
  unfoldable pub cleanup : ℕ → Cmd (State Event E) (Unit {0})
  cleanup k = cleanup_loop k

  -- `if(--curr->count == 0) { mTimer_delete(…); th->number--; }`
  unfoldable pub count_down : ℕ → Ptr → Cmd (State Event E) (Unit {0})
  count_down k curr = do
    c ← load curr
    let e = c.body
    set_body curr (record e { count = e.count -ℤ pos 1 })
    if eqb_ℤ (e.count -ℤ pos 1) (pos 0)
        then (do
          d ← load curr
          delete k d.body.func d.body.ctx_arg
          number ← get_number
          set_number (number -ℤ pos 1))
        else pure tt

  -- `curr->lastTime = eventTv`
  unfoldable pub set_last_time : Ptr → Timeval → Cmd (State Event E) (Unit {0})
  set_last_time curr event_tv = do
    c ← load curr
    let e = c.body
    set_body curr (record e { last_time = event_tv })

  module _ (callback : ℕ → ℕ → Cmd (State Event E) (Unit {0})) where
    -- The execution of an event whose time has come.
    unfoldable pub execute_event : ℕ → Ptr → Timeval → Cmd (State Event E) (Unit {0})
    unfolding count_down set_last_time
    execute_event k curr event_tv = do
      c ← load curr
      callback c.body.func c.body.ctx_arg
      count_down k curr
      set_last_time curr event_tv

    -- The loop of `mTimer_executeExpireEvents`.
    unfoldable pub execute_loop : ℕ → ℕ → Timeval → Ptr → Cmd (State Event E) (Unit {0})
    unfolding execute_event
    execute_loop zero fuel tv curr = λ _. out_of_fuel
    execute_loop (suc k) fuel tv curr = if curr == null then pure tt else do
      c ← load curr
      let event_tv = tv_add c.body.last_time c.body.interval
      if is_le_timeval event_tv tv
          then execute_event fuel curr event_tv >> execute_loop k fuel tv c.next
          else execute_loop k fuel tv c.next

    -- `mTimer_executeExpireEvents`; `fuel` bounds its loop and that of the deletions in it.
    unfoldable pub execute_expire_events : ℕ → Timeval → Cmd (State Event E) (Unit {0})
    unfolding execute_loop
    execute_expire_events fuel tv = do curr ← get_events; execute_loop fuel fuel tv curr
