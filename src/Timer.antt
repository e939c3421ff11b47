-- ===== src/Timer.antt =====
-- misc_timer.c: one-shot events in a singly linked list, the earliest first. `env` is the data of
-- the program that the event functions work on, `callback func ctx_data` is the call of an event
-- function: it may call the timer again. What the library calls give is an argument: the block of
-- `malloc` with its old contents, or `none`, and the time that `gettimeofday` leaves in its argument
-- (the code does not look at its result).
pub mod Insert
pub mod Order
pub mod Link
pub mod Add
pub mod Execute
pub mod Expire
pub mod Contract
pub mod Dangling
pub mod Reentry
pub mod Program
mod Tests
use libmisc.Base.{
  ℕ, zero, suc, ◌≡◌, Bool, true, false, ◌&&◌, Option, none, some, ◌==◌, if◌then◌else◌,
}
use libmisc.Base.Int.{ℤ, pos, minus_one, ◌+ℤ◌, ◌-ℤ◌, eqb_ℤ}
use libmisc.Base.Text.{Text, truncated}
use libmisc.Store.{
  Ptr, null, Node, Heap, State, Cmd, out_of_fuel, pure, ◌>>=◌, ◌>>◌, load, store, set_next,
  set_body, free, get_events, set_events, get_number, set_number,
}
use libmisc.Time.{Timeval, add_msec, is_earlier_than}
use libmisc.EventList.{is_event_present, event_delete, cleanup_loop}

-- `timer_event_t` without its link. `func` and `ctx_data` are compared as addresses only.
pub record Event : Type 0 where
  pub expire : Timeval
  pub func : ℕ
  pub ctx_data : ℕ
  pub name : Text

abbrev pub event_timer_name_length : ℕ
event_timer_name_length = 16

abbrev pub matches : ℕ → ℕ → Event → Bool
matches func ctx_data e = e.func == func && e.ctx_data == ctx_data

-- `snprintf(new->name, sizeof(new->name), "%s", name)`, unless `name` is `NULL`.
abbrev pub set_name : Option Text → Text → Text
set_name none old = old
set_name (some s) old = truncated event_timer_name_length s

-- The members of a new event; `old` is what the block held.
unfoldable pub new_event : Timeval → ℕ → ℕ → ℤ → Option Text → Event → Event
new_event now func ctx_data ms name old = record {
  expire = add_msec now ms;
  func = func;
  ctx_data = ctx_data;
  name = set_name name old.name;
}

module _ {E : Type 0} where
  -- `timer_init`: the result and, if `calloc` succeeds, the handle.
  pub init : Bool → Heap Event → E → ℤ × Option (State Event E)
  init allocated h env =
      if allocated
      then (
        pos 0,
        some (record { heap = h; live = true; events = null; number = pos 0; env = env }),
      )
      else (minus_one, none)

  -- `(curr == NULL) || IS_EARLIER_THAN(&new->expire, &curr->expire)`
  unfoldable pub is_place : Ptr → Ptr → Cmd (State Event E) Bool
  is_place new curr =
      if curr == null
      then pure true
      else do n ← load new; c ← load curr; pure (is_earlier_than n.body.expire c.body.expire)

  -- The loop of `timer_event_add`; `prev` is the event that `curr` stands at.
  unfoldable pub insert_loop : ℕ → Ptr → Ptr → Cmd (State Event E) (Unit {0})
  unfolding is_place
  insert_loop zero new prev = λ _. out_of_fuel
  insert_loop (suc k) new prev = do
    p ← load prev
    here ← is_place new p.next
    if here then (do set_next new p.next; set_next prev new) else insert_loop k new p.next

  -- The insertion of the new event behind the test of `th->number`.
  unfoldable pub link : ℕ → Ptr → Cmd (State Event E) (Unit {0})
  unfolding insert_loop
  link k new = do
    number ← get_number
    if eqb_ℤ number (pos 0) then set_events new else do
      curr ← get_events
      n ← load new
      c ← load curr
      if is_earlier_than n.body.expire c.body.expire
          then (do set_next new curr; set_events new)
          else insert_loop k new curr

  -- What follows the allocation.
  unfoldable pub add_block :
      ℕ → Timeval → Ptr × Node Event → ℕ → ℕ → ℤ → Option Text → Cmd (State Event E) ℤ
  unfolding link
  add_block k now (new, old) func ctx_data ms name = do
    store new (some old)
    set_body new (new_event now func ctx_data ms name old.body)
    link k new
    number ← get_number
    set_number (number +ℤ pos 1)
    pure (pos 0)

  -- `timer_event_add`
  unfoldable pub event_add :
      ℕ → Timeval → Option (Ptr × Node Event) → ℕ → ℕ → ℤ → Option Text → Cmd (State Event E) ℤ
  unfolding add_block
  event_add k now block func ctx_data ms name = do
    present ← is_event_present k (matches func ctx_data)
    if present
        then pure minus_one
        else elim block [ none ↦ pure minus_one | some b ↦ add_block k now b func ctx_data ms name ]

  -- `timer_event_delete`
  unfoldable pub delete : ℕ → ℕ → ℕ → Cmd (State Event E) ℤ
  delete k func ctx_data = event_delete k (matches func ctx_data)

  -- `timer_cleanup`
  unfoldable pub cleanup : ℕ → Cmd (State Event E) (Unit {0})
  cleanup k = cleanup_loop k

  -- `(curr != NULL) && IS_EARLIER_THAN(&curr->expire, &tv)`
  unfoldable pub is_due : Timeval → Ptr → Cmd (State Event E) Bool
  is_due tv curr =
      if curr == null then pure false else do c ← load curr; pure (is_earlier_than c.body.expire tv)

  module _ (callback : ℕ → ℕ → Cmd (State Event E) (Unit {0})) where
    -- One round of the loop of `timer_execute_expire_events`.
    unfoldable pub execute_event : Ptr → Cmd (State Event E) (Unit {0})
    execute_event curr = do
      c ← load curr
      set_events c.next
      set_next curr null
      number ← get_number
      set_number (number -ℤ pos 1)
      e ← load curr
      callback e.body.func e.body.ctx_data
      free curr

    -- The loop of `timer_execute_expire_events`.
    unfoldable pub execute_loop : ℕ → Timeval → Cmd (State Event E) (Unit {0})
    unfolding execute_event is_due
    execute_loop zero tv = λ _. out_of_fuel
    execute_loop (suc k) tv = do
      curr ← get_events
      due ← is_due tv curr
      if due then execute_event curr >> execute_loop k tv else pure tt
