-- ===== src/Timer2/Fault.antt =====
-- `mTimer_executeExpireEvents` when the count of an event comes to its end: `mTimer_delete` frees
-- the event, and the loop then writes to it.
use libmisc.Base.{
  ℕ, zero, suc, ◌<◌, ◌≡◌, refl, sym, ap, ◌∙◌, inl, inr, true, false, none, [], ◌∷◌, ◌++◌, arith,
  Bool-cases, length, length-append,
}
use mathlib.Core.Path.{subst}
use mathlib.Core.List.{append_assoc}
use libmisc.Base.Int.{pos, ◌-ℤ◌, eqb_ℤ}
use libmisc.Store.{Ptr, State, Cmd, ok, fault}
use libmisc.Store.Handle.{get_events-eq, get_number-ok, set_number-ok}
use libmisc.Store.Yields
use libmisc.Store.Yields.{yields}
use libmisc.Store.Chain.{Cells, Points, not_null, load-ok, load-none, set_body-ok, Points-write}
use libmisc.Time.{Timeval}
use libmisc.EventList.Find.{IsEventList, contains}
use libmisc.EventList.Delete.{event_delete-Deleted}
use libmisc.Timer2.{
  Event, matches, delete, count_down, set_last_time, execute_event, execute_loop,
  execute_expire_events,
}
use libmisc.Timer2.Walk.{
  first_of, first_of-Chain, Points-middle, Chain-set_body, contains-append, find-append,
}
use libmisc.Timer2.Execute.{
  next_time, is_due, is_last, ticked, counted, after, execute_event-after, after-IsEventList,
}

-- No event of `xs` has the function and data of one of `ys`, or of one before it in `xs`.
abbrev pub IsApart : Cells Event → Cells Event → Type 0
IsApart ys [] = Unit {0}
IsApart ys ((p, e) ∷ xs) =
    (contains (matches e.func e.ctx_arg) ys ≡ false) × IsApart ((p, e) ∷ ys) xs

-- No two events have the same function and data.
abbrev pub IsDistinct : Cells Event → Type 0
IsDistinct xs = IsApart [] xs

-- The same functions and data occur in both.
abbrev SameKeys : Cells Event → Cells Event → Type 0
SameKeys ys zs = (f c : ℕ) → contains (matches f c) ys ≡ contains (matches f c) zs

SameKeys-snoc :
    (p : Ptr) (ys zs : Cells Event) (e e' : Event)
    → e'.func ≡ e.func
    → e'.ctx_arg ≡ e.ctx_arg
    → SameKeys ys zs
    → SameKeys (ys ++ (p, e') ∷ []) ((p, e) ∷ zs)
unfolding contains
SameKeys-snoc p ys zs e e' func ctx same f c =
    ground (arith, contains-append (matches f c) ys ((p, e') ∷ []), same f c)

module _ {E : Type 0} (now : Timeval) (act : ℕ → ℕ → E → E)
    (callback : ℕ → ℕ → Cmd (State Event E) (Unit {0}))
    (acts : (func ctx : ℕ) (s : State Event E)
      → callback func ctx s ≡ ok tt (record s { env = act func ctx s.env })) where
  -- The execution of an event for the last time ends in a write to freed memory.
  execute_event_last :
      (fuel : ℕ) (s : State Event E) (p : Ptr) (e : Event) (ys xs : Cells Event)
      → IsEventList s (ys ++ (p, e) ∷ xs)
      → contains (matches e.func e.ctx_arg) ys ≡ false
      → eqb_ℤ (e.count -ℤ pos 1) (pos 0) ≡ true
      → length (ys ++ (p, e) ∷ xs) < fuel
      → execute_event callback fuel p (next_time e) s ≡ fault
  unfolding execute_event count_down set_last_time delete
  execute_event_last fuel s p e ys xs is before last more =
      let q = first_of xs in
      let x = Points-middle ys xs is.chain in
      let s₁ : State Event E = record s { env = act e.func e.ctx_arg s.env } in
      let e' : Event = record e { count = e.count -ℤ pos 1 } in
      let f = matches e.func e.ctx_arg in
      let u : State Event E = counted now act callback acts s p q e in
      let x' : Points u.heap p e' q = Points-write s.heap q e' x.ne_null in
      let same_length : length (ys ++ (p, e') ∷ xs) ≡ length (ys ++ (p, e) ∷ xs) =
        omega (arith, length-append ys ((p, e') ∷ xs), length-append ys ((p, e) ∷ xs)) in
      let list : IsEventList u (ys ++ (p, e') ∷ xs) = record {
        live = is.live;
        chain = Chain-set_body q e e' ys xs x is.chain;
        number = is.number ∙ ap pos (sym same_length);
      } in
      let hit : f e' ≡ true = ground arith in
      let present : contains f (ys ++ (p, e') ∷ xs) ≡ true =
        unfold contains in ground (arith, contains-append f ys ((p, e') ∷ xs)) in
      rw
        (
          load-ok s x,
          acts e.func e.ctx_arg s,
          load-ok s₁ x,
          set_body-ok s₁ x e',
          last,
          load-ok u x',
        )
        (Yields.bind_fault
          (Yields.bind {Q = λ _ t. t.heap p ≡ none}
            (event_delete-Deleted f fuel u list present (omega arith))
            λ r t d.
              let live : t.live ≡ true = d.list.live in
              rw (get_number-ok t live, set_number-ok t live (t.number -ℤ pos 1))
                (yields (ap t.heap (sym (find-append f ys p e' xs before hit)) ∙ d.freed)))
          λ _ t freed. rw (load-none t p freed))

  execute_loop_last :
      (k fuel : ℕ) (s : State Event E) (ys zs xs : Cells Event)
      → IsEventList s (ys ++ xs)
      → SameKeys ys zs
      → IsApart zs xs
      → contains (is_last now) xs ≡ true
      → length xs < k
      → length (ys ++ xs) < fuel
      → execute_loop callback k fuel now (first_of xs) s ≡ fault
  unfolding execute_loop contains first_of
  execute_loop_last zero fuel s ys zs xs is keys apart present more deep = absurd (omega arith)
  execute_loop_last (suc k) fuel s ys zs [] is keys apart present more deep = cc
  execute_loop_last (suc k) fuel s ys zs ((p, e) ∷ xs) is keys apart present more deep =
      let q = first_of xs in
      let x = Points-middle ys xs is.chain in
      let u : State Event E = after now act callback acts s p q e in
      let joined : (e' : Event) → (ys ++ (p, e') ∷ []) ++ xs ≡ ys ++ (p, e') ∷ xs =
        λ e'. append_assoc ys ((p, e') ∷ []) xs in
      let deep' : (e' : Event) → length ((ys ++ (p, e') ∷ []) ++ xs) < fuel = λ e'. omega (
        arith,
        ap length (joined e'),
        length-append ys ((p, e') ∷ xs),
        length-append ys ((p, e) ∷ xs),
      ) in
      elim (Bool-cases (is_due now e)) [
        | inl due ↦ elim (Bool-cases (eqb_ℤ (e.count -ℤ pos 1) (pos 0))) [
          | inl last ↦ rw (
            not_null x,
            load-ok s x,
            due,
            execute_event_last fuel s p e ys xs is (keys e.func e.ctx_arg ∙ apart.0) last deep,
          )
          | inr counting ↦
              let list : IsEventList u ((ys ++ (p, ticked e) ∷ []) ++ xs) =
                subst (IsEventList u) (sym (joined (ticked e)))
                  (after-IsEventList now act callback acts s ys xs x is) in
              rw
                (
                  not_null x,
                  load-ok s x,
                  due,
                  execute_event-after now act callback acts fuel s x counting,
                )
                (execute_loop_last k fuel u (ys ++ (p, ticked e) ∷ []) ((p, e) ∷ zs) xs list
                  (SameKeys-snoc p ys zs e (ticked e) refl refl keys) apart.1 (ground arith)
                  (omega arith) (deep' (ticked e)))
        ]
        | inr waits ↦
            let list : IsEventList s ((ys ++ (p, e) ∷ []) ++ xs) =
              subst (IsEventList s) (sym (joined e)) is in
            rw (not_null x, load-ok s x, waits)
              (execute_loop_last k fuel s (ys ++ (p, e) ∷ []) ((p, e) ∷ zs) xs list
                (SameKeys-snoc p ys zs e e refl refl keys) apart.1 (ground arith) (omega arith)
                (deep' e))
      ]

  -- If the count of some event comes to its end in a round, the round ends in a fault.
  pub execute_expire_events_last :
      (fuel : ℕ) (s : State Event E) {xs : Cells Event}
      → IsEventList s xs
      → IsDistinct xs
      → contains (is_last now) xs ≡ true
      → length xs < fuel
      → execute_expire_events callback fuel now s ≡ fault
  unfolding execute_expire_events
  execute_expire_events_last fuel s {xs} is apart present more =
      rw (get_events-eq s is.live (first_of-Chain is.chain))
        (execute_loop_last fuel fuel s [] [] xs is (λ f c. refl) apart present more more)
