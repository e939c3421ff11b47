-- ===== src/EventList.antt =====
-- The loops over the singly linked list of events that misc_timer.c and misc_timer2.c share word for
-- word. `matches` is the loops' test, `event->func == func && event->ctx_data == ctx_data`. Each
-- loop runs on fuel.
pub mod Find
pub mod Unlink
pub mod Delete
pub mod Clear
use libmisc.Base.{ℕ, zero, suc, Bool, true, false, not, ◌==◌, if◌then◌else◌, List, [], ◌∷◌}
use libmisc.Base.Int.{ℤ, pos, ◌-ℤ◌, minus_one}
use libmisc.Store.{
  Ptr, null, State, Cmd, out_of_fuel, pure, ◌>>=◌, ◌>>◌, load, set_next, free, get_events,
  set_events, get_number, set_number, free_handle,
}

module _ {A E : Type 0} where
  -- The loop of `timer_is_event_present`; the result is the last value of `event`.
  unfoldable pub find_loop : ℕ → (A → Bool) → Ptr → Cmd (State A E) Ptr
  find_loop zero matches event = λ _. out_of_fuel
  find_loop (suc k) matches event =
      if event == null
      then pure null
      else do n ← load event; if matches n.body then pure event else find_loop k matches n.next

  -- `timer_is_event_present`
  unfoldable pub is_event_present : ℕ → (A → Bool) → Cmd (State A E) Bool
  unfolding find_loop
  is_event_present k matches = do
    first ← get_events
    event ← find_loop k matches first
    pure (not (event == null))

  -- The loop of `timer_event_delete` behind the first event; the result is the last value of `curr`.
  unfoldable pub unlink_loop : ℕ → (A → Bool) → Ptr → Cmd (State A E) Ptr
  unlink_loop zero matches curr = λ _. out_of_fuel
  unlink_loop (suc k) matches curr = if curr == null then pure null else do
    prev ← load curr
    if prev.next == null then unlink_loop k matches null else do
      n ← load prev.next
      if matches n.body
          then (do set_next curr n.next; set_next prev.next null; pure prev.next)
          else unlink_loop k matches prev.next

  -- What `timer_event_delete` does until `curr` is the unlinked event, or `NULL`.
  unfoldable pub unlink : ℕ → (A → Bool) → Ptr → Cmd (State A E) Ptr
  unfolding unlink_loop
  unlink k matches curr = do
    n ← load curr
    if matches n.body
        then (do set_events n.next; set_next curr null; pure curr)
        else unlink_loop k matches curr

  -- The end of `timer_event_delete`.
  unfoldable pub drop_unlinked : Ptr → Cmd (State A E) ℤ
  drop_unlinked curr =
      if curr == null
      then pure (pos 0)
      else do number ← get_number; set_number (number -ℤ pos 1); free curr; pure (pos 0)

  -- `timer_event_delete`
  unfoldable pub event_delete : ℕ → (A → Bool) → Cmd (State A E) ℤ
  unfolding unlink drop_unlinked
  event_delete k matches = do
    first ← get_events
    if first == null then pure minus_one else do curr ← unlink k matches first; drop_unlinked curr

  -- The loop of `timer_cleanup`, with the `free(*handle)` behind it.
  unfoldable pub cleanup_loop : ℕ → Cmd (State A E) (Unit {0})
  cleanup_loop zero = λ _. out_of_fuel
  cleanup_loop (suc k) = do
    event ← get_events
    if event == null
        then free_handle
        else do n ← load event; set_events n.next; free event; cleanup_loop k
