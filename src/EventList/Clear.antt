-- ===== src/EventList/Clear.antt =====
-- `timer_cleanup` and `mTimer_cleanup`: every event and the handle are freed.
use libmisc.Base.{ℕ, zero, suc, ◌<◌, ◌≡◌, refl, ◌∙◌, true, false, none, arith, length}
use libmisc.Store.{Ptr, write, State}
use libmisc.Store.Handle.{get_events-eq, set_events-ok, free_handle-ok}
use libmisc.Store.Yields
use libmisc.Store.Yields.{Yields, yields}
use libmisc.Store.Chain.{
  Cells, Chain, nil, cons, has, not_null, load-ok, free-ok, frame-write, write_ne, write_self,
}
use libmisc.EventList.{cleanup_loop}
use libmisc.EventList.Find.{IsEventList}

module _ {A E : Type 0} where
  -- The handle is gone, and so are the nodes of `xs`; all other memory is as it was.
  pub record Cleared (s : State A E) (xs : Cells A) (t : State A E) : Type 0 where
    pub dead : t.live ≡ false
    pub freed : (p : Ptr) → has p xs ≡ true → t.heap p ≡ none
    pub same : (p : Ptr) → has p xs ≡ false → t.heap p ≡ s.heap p
    pub env : t.env ≡ s.env

  cleanup_loop-Chain :
      (k : ℕ) (s : State A E) {p : Ptr} {xs : Cells A}
      → s.live ≡ true
      → s.events ≡ p
      → Chain s.heap p xs
      → length xs < k
      → Yields (λ _. Cleared s xs) (cleanup_loop k s)
  unfolding cleanup_loop
  cleanup_loop-Chain zero s live first c fuel = absurd (omega arith)
  cleanup_loop-Chain (suc k) s live first nil fuel =
      rw (get_events-eq s live first, free_handle-ok s live)
        (yields (record { dead = refl; freed = λ p i. cc; same = λ p o. refl; env = refl }))
  cleanup_loop-Chain (suc k) s live first (cons {p} {q} {xs} e out c) fuel =
      let s₁ : State A E = record s { events = q } in
      let s₂ : State A E = record s₁ { heap = write s.heap p none } in
      rw (get_events-eq s live first, not_null e, load-ok s e, set_events-ok s live q, free-ok s₁ e)
        (Yields.weaken (cleanup_loop-Chain k s₂ live refl (frame-write p none c out) (omega arith))
          λ _ t u. record {
            dead = u.dead;
            freed = λ r i. ground (arith, u.freed r, u.same r, write_self s.heap p none);
            same = λ r o. u.same r (ground arith) ∙ write_ne s.heap p r none (ground arith);
            env = u.env;
          })

  pub cleanup_loop-Cleared :
      (k : ℕ) (s : State A E) {xs : Cells A}
      → IsEventList s xs
      → length xs < k
      → Yields (λ _. Cleared s xs) (cleanup_loop k s)
  cleanup_loop-Cleared k s is fuel = cleanup_loop-Chain k s is.live refl is.chain fuel
