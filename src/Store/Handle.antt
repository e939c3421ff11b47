-- ===== src/Store/Handle.antt =====
-- The members of an allocated handle can be read and written.
use libmisc.Base.{◌≡◌, ap, ◌∙◌, true, false, arith}
use libmisc.Base.Int.{ℤ}
use libmisc.Store.{Ptr, State, ok, get_events, set_events, get_number, set_number, free_handle}

module _ {A E : Type 0} (s : State A E) (live : s.live ≡ true) where
  pub get_events-ok : get_events s ≡ ok s.events s
  unfolding get_events
  get_events-ok = ground arith

  pub get_events-eq : {p : Ptr} → s.events ≡ p → get_events s ≡ ok p s
  get_events-eq first = get_events-ok ∙ ap (λ q. ok q s) first

  pub set_events-ok : (p : Ptr) → set_events p s ≡ ok tt (record s { events = p })
  unfolding set_events
  set_events-ok p = ground arith

  pub get_number-ok : get_number s ≡ ok s.number s
  unfolding get_number
  get_number-ok = ground arith

  pub get_number-eq : {n : ℤ} → s.number ≡ n → get_number s ≡ ok n s
  get_number-eq count = get_number-ok ∙ ap (λ n. ok n s) count

  pub set_number-ok : (n : ℤ) → set_number n s ≡ ok tt (record s { number = n })
  unfolding set_number
  set_number-ok n = ground arith

  pub free_handle-ok : free_handle s ≡ ok tt (record s { live = false })
  unfolding free_handle
  free_handle-ok = ground arith
