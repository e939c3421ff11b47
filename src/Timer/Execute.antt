-- ===== src/Timer/Execute.antt =====
-- One round of `timer_execute_expire_events`, and the whole loop with event functions that may call
-- the timer themselves.
use libmisc.Base.{
  ℕ, zero, suc, ◌+◌, ◌≤◌, ◌<◌, ◌≡◌, refl, ap, ◌∙◌, inl, inr, true, false, some, none, [], ◌∷◌,
  arith, if◌then◌else◌, Bool-cases, length, All,
}
use libmisc.Base.Int.{pos, ◌-ℤ◌, pos-sub-one}
use libmisc.Store.{Ptr, null, node, write, State, Cmd, ◌>>◌, free}
use libmisc.Store.Handle.{get_events-eq, set_events-ok, get_number-ok, set_number-ok}
use libmisc.Store.Yields
use libmisc.Store.Yields.{Yields, yields}
use libmisc.Store.Chain.{
  Cells, Points, Chain, nil, cons, has, SameOutside, not_null, load-ok, set_next-ok, free-ok,
  Points-write, frame-write, write_ne,
}
use libmisc.Time.{Timeval, is_earlier_than}
use libmisc.Time.Order.{not_earlier_trans}
use libmisc.EventList.Find.{IsEventList}
use libmisc.Timer.{Event, execute_event, execute_loop}
use libmisc.Timer.Order.{NotBefore, IsOrdered, IsDistinct, IsTimer}

-- The number of events that expired before `now`.
unfoldable pub due_count : Timeval → Cells Event → ℕ
due_count now [] = 0
due_count now ((_, e) ∷ xs) = (if is_earlier_than e.expire now then 1 else 0) + due_count now xs

-- If the first event of an ordered list has not expired, then none has.
pub due_count-first :
    (now : Timeval) (e : Event) (xs : Cells Event)
    → is_earlier_than e.expire now ≡ false
    → All (NotBefore e) xs
    → due_count now xs ≡ 0
unfolding due_count
due_count-first now e [] h hs = refl
due_count-first now e ((q, a) ∷ xs) h hs =
    rw is_late (omega (arith, due_count-first now e xs h hs.1))
  where
    is_late : is_earlier_than a.expire now ≡ false
    is_late = not_earlier_trans now e.expire a.expire h hs.0

module _ {E : Type 0} where
  -- The state in which the event function runs: the event `p` is unlinked, and still allocated.
  abbrev pub unlinked : State Event E → Ptr → Ptr → Event → State Event E
  unlinked s p q e = record s {
    heap = write s.heap p (some (node null e));
    events = q;
    number = s.number -ℤ pos 1;
  }

  pub record Running (s : State Event E) (p : Ptr) (e : Event) (xs : Cells Event)
      (t : State Event E) : Type 0 where
    pub list : IsEventList t xs
    pub node_kept : Points t.heap p e null
    pub apart : has p xs ≡ false
    pub same : SameOutside ((p, e) ∷ []) s.heap t.heap

  pub unlinked-Running :
      (s : State Event E) {p q : Ptr} {e : Event} {xs : Cells Event}
      → s.live ≡ true
      → s.number ≡ pos (suc (length xs))
      → Points s.heap p e q
      → has p xs ≡ false
      → Chain s.heap q xs
      → Running s p e xs (unlinked s p q e)
  unlinked-Running s {p} {e} {xs} live number x out c = record {
    list = record {
      live = live;
      chain = frame-write p _ c out;
      number = ap (λ n. n -ℤ pos 1) number ∙ pos-sub-one (length xs);
    };
    node_kept = Points-write s.heap null e x.ne_null;
    apart = out;
    same = λ r o. write_ne s.heap p r _ (ground arith);
  }

  -- The round up to the call of the event function.
  pub execute_event-unlinked :
      (callback : ℕ → ℕ → Cmd (State Event E) (Unit {0})) (s : State Event E) {p q : Ptr}
      {e : Event}
      → s.live ≡ true
      → Points s.heap p e q
      → execute_event callback p s ≡ (callback e.func e.ctx_data >> free p) (unlinked s p q e)
  unfolding execute_event
  execute_event-unlinked callback s {p} {q} {e} live x =
      let s₁ : State Event E = record s { events = q } in
      let s₂ : State Event E = record s₁ { heap = write s.heap p (some (node null e)) } in
      let s₃ : State Event E = record s₂ { number = s.number -ℤ pos 1 } in
      rw (
        load-ok s x,
        set_events-ok s live q,
        set_next-ok s₁ x null,
        get_number-ok s₂ live,
        set_number-ok s₂ live (s.number -ℤ pos 1),
        load-ok s₃ (Points-write s.heap null e x.ne_null),
      )

module _ {E : Type 0} (now : Timeval) (callback : ℕ → ℕ → Cmd (State Event E) (Unit {0})) where
  -- What a call of an event function leaves: a timer that is well formed, with no more expired
  -- events than before, and the node of the running event as it was.
  pub record Left (s : State Event E) (xs : Cells Event) (p : Ptr) (t : State Event E)
      : Type 0 where
    pub cells : Cells Event
    pub timer : IsTimer t cells
    pub fewer : due_count now cells ≤ due_count now xs
    pub apart : has p cells ≡ false
    pub kept : t.heap p ≡ s.heap p

  -- An event function returns, and leaves the timer so.
  abbrev pub Behaves : Type 0
  Behaves =
      (func ctx : ℕ) (s : State Event E) (xs : Cells Event) (p : Ptr) (e : Event)
      → IsTimer s xs
      → has p xs ≡ false
      → Points s.heap p e null
      → Yields (λ _. Left s xs p) (callback func ctx s)

  -- The timer is well formed, and at most `n` events have expired.
  pub record Remains (n : ℕ) (t : State Event E) : Type 0 where
    pub cells : Cells Event
    pub timer : IsTimer t cells
    pub bound : due_count now cells ≤ n

  execute_event-Remains :
      (s : State Event E) {p q : Ptr} {e : Event} {xs : Cells Event}
      → Behaves
      → s.live ≡ true
      → s.number ≡ pos (suc (length xs))
      → Points s.heap p e q
      → has p xs ≡ false
      → Chain s.heap q xs
      → IsOrdered xs
      → IsDistinct xs
      → Yields (λ _. Remains (due_count now xs)) (execute_event callback p s)
  execute_event-Remains s {p} {q} {e} {xs} behaves live number x out c ordered distinct =
      let run = unlinked-Running s live number x out c in
      let timer : IsTimer (unlinked s p q e) xs = record {
        list = run.list;
        ordered = ordered;
        distinct = distinct;
      } in
      rw (execute_event-unlinked callback s live x) (
        Yields.bind (behaves e.func e.ctx_data _ xs p e timer out run.node_kept) λ _ t l.
          let x' : Points t.heap p e null = record {
            ne_null = x.ne_null;
            holds = l.kept ∙ run.node_kept.holds;
          } in
          rw (free-ok t x') (
            yields (record {
              cells = l.cells;
              timer = record {
                list = record {
                  live = l.timer.list.live;
                  chain = frame-write p none l.timer.list.chain l.apart;
                  number = l.timer.list.number;
                };
                ordered = l.timer.ordered;
                distinct = l.timer.distinct;
              };
              bound = l.fewer;
            })))

  execute_loop-Chain :
      (k : ℕ) (s : State Event E) {p : Ptr} {xs : Cells Event}
      → Behaves
      → IsTimer s xs
      → s.events ≡ p
      → Chain s.heap p xs
      → due_count now xs < k
      → Yields (λ _. Remains 0) (execute_loop callback k now s)
  unfolding execute_loop due_count
  execute_loop-Chain zero s behaves is first c fuel = absurd (omega arith)
  execute_loop-Chain (suc k) s behaves is first nil fuel =
      rw (get_events-eq s is.list.live first)
        (yields (record { cells = []; timer = is; bound = omega arith }))
  execute_loop-Chain (suc k) s behaves is first (cons {p} {a = e} {xs} x out c) fuel =
      rw (get_events-eq s is.list.live first, not_null x, load-ok s x)
        (elim (Bool-cases (is_earlier_than e.expire now)) [
          | inl due ↦ rw due (
              Yields.bind
                (execute_event-Remains s behaves is.list.live is.list.number x out c is.ordered.1
                  is.distinct.1)
                λ _ t r.
                  execute_loop-Chain k t behaves r.timer refl r.timer.list.chain
                    (ground (arith, r.bound)))
          | inr late ↦ rw late (
              yields (record {
                cells = (p, e) ∷ xs;
                timer = is;
                bound = ground (arith, due_count-first now e xs late is.ordered.0);
              }))
        ])

  -- With event functions that return and leave the timer well formed, the loop ends, and no expired
  -- event is left.
  pub execute_loop-Remains :
      (k : ℕ) (s : State Event E) {xs : Cells Event}
      → Behaves
      → IsTimer s xs
      → due_count now xs < k
      → Yields (λ _. Remains 0) (execute_loop callback k now s)
  execute_loop-Remains k s behaves is fuel =
      execute_loop-Chain k s behaves is refl is.list.chain fuel
