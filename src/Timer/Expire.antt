-- ===== src/Timer/Expire.antt =====
-- `timer_execute_expire_events` with event functions that leave the timer alone: which events are
-- executed, in which order, and what is left.
use libmisc.Base.{
  ℕ, zero, suc, ◌<◌, ◌≡◌, refl, ◌∙◌, inl, inr, true, false, none, [], ◌∷◌, arith, if◌then◌else◌,
  Bool-cases, length,
}
use libmisc.Store.{Ptr, write, State, Cmd, ok}
use libmisc.Store.Handle.{get_events-eq}
use libmisc.Store.Yields
use libmisc.Store.Yields.{Yields, yields}
use libmisc.Store.Chain.{
  Cells, Points, Chain, nil, cons, has, SameOutside, not_null, load-ok, free-ok, frame-write,
  write_ne, write_self,
}
use libmisc.Time.{Timeval, is_earlier_than}
use libmisc.EventList.Find.{IsEventList}
use libmisc.Timer.{Event, execute_event, execute_loop}
use libmisc.Timer.Execute.{unlinked, unlinked-Running, execute_event-unlinked}

-- The events in front that have expired, and the list behind them.
unfoldable pub expired : Timeval → Cells Event → Cells Event
expired now [] = []
expired now ((p, e) ∷ xs) = if is_earlier_than e.expire now then (p, e) ∷ expired now xs else []

unfoldable pub pending : Timeval → Cells Event → Cells Event
pending now [] = []
pending now ((p, e) ∷ xs) = if is_earlier_than e.expire now then pending now xs else (p, e) ∷ xs

expired-due :
    (now : Timeval) (p : Ptr) (e : Event) (xs : Cells Event)
    → is_earlier_than e.expire now ≡ true
    → expired now ((p, e) ∷ xs) ≡ (p, e) ∷ expired now xs
unfolding expired
expired-due now p e xs due = rw due

-- The event functions of the list, one after the other.
unfoldable pub run_all : {E : Type 0} → (ℕ → ℕ → E → E) → Cells Event → E → E
run_all act [] env = env
run_all act ((_, e) ∷ xs) env = run_all act xs (act e.func e.ctx_data env)

module _ {E : Type 0} (now : Timeval) (act : ℕ → ℕ → E → E) where
  -- The expired events at the front were executed in order and freed, and the rest is the list.
  pub record Fired (s : State Event E) (xs : Cells Event) (t : State Event E) : Type 0 where
    pub list : IsEventList t (pending now xs)
    pub env : t.env ≡ run_all act (expired now xs) s.env
    pub freed : (p : Ptr) → has p (expired now xs) ≡ true → t.heap p ≡ none
    pub same : SameOutside (expired now xs) s.heap t.heap

  -- The state behind the round of the event `p`.
  abbrev after : State Event E → Ptr → Ptr → Event → State Event E
  after s p q e =
      let t : State Event E = unlinked s p q e in
      record t { heap = write t.heap p none; env = act e.func e.ctx_data s.env }

  Fired-cons :
      (s : State Event E) {t : State Event E} {p : Ptr} (q : Ptr) {e : Event} {xs : Cells Event}
      → is_earlier_than e.expire now ≡ true
      → Fired (after s p q e) xs t
      → Fired s ((p, e) ∷ xs) t
  unfolding pending run_all
  Fired-cons s {t} {p} q {e} {xs} due f =
      let h = (unlinked s p q e).heap in
      let front = expired-due now p e xs due in
      record {
        list = rw due f.list;
        env = rw front f.env;
        freed = rw front λ r i. ground (arith, f.freed r, f.same r, write_self h p none);
        same = rw front λ r o.
            f.same r (ground arith)
            ∙ (write_ne h p r _ (ground arith) ∙ write_ne s.heap p r _ (ground arith));
      }

  module _ (callback : ℕ → ℕ → Cmd (State Event E) (Unit {0}))
      (acts : (func ctx : ℕ) (s : State Event E)
        → callback func ctx s ≡ ok tt (record s { env = act func ctx s.env })) where
    execute_event-after :
        (s : State Event E) {p q : Ptr} {e : Event} {xs : Cells Event}
        → IsEventList s ((p, e) ∷ xs)
        → Points s.heap p e q
        → has p xs ≡ false
        → Chain s.heap q xs
        → (execute_event callback p s ≡ ok tt (after s p q e)) × IsEventList (after s p q e) xs
    execute_event-after s {p} {q} {e} is x out c =
        let run = unlinked-Running s is.live is.number x out c in
        let t : State Event E = unlinked s p q e in
        let u : State Event E = record t { env = act e.func e.ctx_data s.env } in
        (
          execute_event-unlinked callback s is.live x
              ∙ rw (acts e.func e.ctx_data t) (free-ok u run.node_kept),
          record {
            live = run.list.live;
            chain = frame-write p none run.list.chain out;
            number = run.list.number;
          },
        )

    execute_loop-Chain :
        (k : ℕ) (s : State Event E) {p : Ptr} {xs : Cells Event}
        → IsEventList s xs
        → s.events ≡ p
        → Chain s.heap p xs
        → length (expired now xs) < k
        → Yields (λ _. Fired s xs) (execute_loop callback k now s)
    unfolding execute_loop expired pending run_all
    execute_loop-Chain zero s is first c fuel = absurd (omega arith)
    execute_loop-Chain (suc k) s is first nil fuel =
        rw (get_events-eq s is.live first)
          (yields (record { list = is; env = refl; freed = λ p i. cc; same = λ p o. refl }))
    execute_loop-Chain (suc k) s is first (cons {p} {q} {a = e} {xs} x out c) fuel =
        rw (get_events-eq s is.live first, not_null x, load-ok s x)
          (elim (Bool-cases (is_earlier_than e.expire now)) [
            | inl due ↦
                let (ran, list) = execute_event-after s is x out c in
                rw (due, ran)
                  (Yields.weaken
                    (execute_loop-Chain k (after s p q e) list refl list.chain
                      (ground (arith, fuel)))
                    λ _ t. Fired-cons s q due)
            | inr late ↦ rw late (
                yields (record {
                  list = rw late is;
                  env = rw late;
                  freed = rw late (λ r i. cc);
                  same = λ r o. refl;
                }))
          ])

    -- The loop returns; it has executed the expired events at the front of the list in their order,
    -- and freed them, and the rest is the list.
    pub execute_loop-Fired :
        (k : ℕ) (s : State Event E) {xs : Cells Event}
        → IsEventList s xs
        → length (expired now xs) < k
        → Yields (λ _. Fired s xs) (execute_loop callback k now s)
    execute_loop-Fired k s is fuel = execute_loop-Chain k s is refl is.chain fuel
