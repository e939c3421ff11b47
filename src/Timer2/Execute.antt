-- ===== src/Timer2/Execute.antt =====
-- `mTimer_executeExpireEvents` as long as no event comes to the end of its count, with event
-- functions that leave the timer alone.
use libmisc.Base.{
  ℕ, zero, suc, ◌<◌, ◌≡◌, refl, sym, ap, ◌∙◌, inl, inr, Bool, false, some, [], ◌∷◌, ◌++◌, arith,
  ◌&&◌, if◌then◌else◌, Bool-cases, length, length-append,
}
use mathlib.Core.Path.{subst}
use mathlib.Core.List.{append_assoc}
use libmisc.Base.Int.{ℤ, pos, ◌-ℤ◌, eqb_ℤ}
use libmisc.Store.{Ptr, node, write, State, Cmd, ok}
use libmisc.Store.Handle.{get_events-eq}
use libmisc.Store.Yields
use libmisc.Store.Yields.{Yields, yields}
use libmisc.Store.Chain.{
  Cells, Points, SameOutside, not_null, load-ok, set_body-ok, Points-write, write_ne,
}
use libmisc.Time.{Timeval, is_le_timeval}
use libmisc.EventList.Find.{IsEventList, contains}
use libmisc.Timer2.{
  Event, tv_add, add_million_sec, count_down, set_last_time, execute_event, execute_loop,
  execute_expire_events,
}
use libmisc.Timer2.Walk.{first_of, first_of-Chain, Points-middle, Chain-set_body}

-- The time at which the event is to be executed.
abbrev pub next_time : Event → Timeval
next_time e = tv_add e.last_time e.interval

abbrev pub is_due : Timeval → Event → Bool
is_due now e = is_le_timeval (next_time e) now

-- The event is executed for the last time.
abbrev pub is_last : Timeval → Event → Bool
is_last now e = is_due now e && eqb_ℤ (e.count -ℤ pos 1) (pos 0)

-- An event behind its execution.
abbrev pub ticked : Event → Event
ticked e = record e { count = e.count -ℤ pos 1; last_time = next_time e }

-- The two additions of misc_timer2.c agree.
add_million_sec-tv_add : (tv : Timeval) (ms : ℤ) → add_million_sec tv ms ≡ tv_add tv ms
unfolding add_million_sec tv_add
add_million_sec-tv_add tv ms = refl

-- The list behind a round: each event whose time has come was executed once.
unfoldable pub tick : Timeval → Cells Event → Cells Event
tick now [] = []
tick now ((p, e) ∷ xs) = (p, if is_due now e then ticked e else e) ∷ tick now xs

-- The event functions of the events whose time has come, in order.
unfoldable pub run_due : {E : Type 0} → (ℕ → ℕ → E → E) → Timeval → Cells Event → E → E
run_due act now [] env = env
run_due act now ((_, e) ∷ xs) env =
    run_due act now xs (if is_due now e then act e.func e.ctx_arg env else env)

pub length-tick : (now : Timeval) (xs : Cells Event) → length (tick now xs) ≡ length xs
unfolding tick
length-tick now [] = refl
length-tick now (x ∷ xs) = ap suc (length-tick now xs)

module _ {E : Type 0} (now : Timeval) (act : ℕ → ℕ → E → E) where
  -- The events behind `ys` were executed in order where their time has come; nothing was unlinked.
  pub record Ticked (s : State Event E) (ys xs : Cells Event) (t : State Event E) : Type 0 where
    pub list : IsEventList t (ys ++ tick now xs)
    pub env : t.env ≡ run_due act now xs s.env
    pub same : SameOutside xs s.heap t.heap

  module _ (callback : ℕ → ℕ → Cmd (State Event E) (Unit {0}))
      (acts : (func ctx : ℕ) (s : State Event E)
        → callback func ctx s ≡ ok tt (record s { env = act func ctx s.env })) where
    -- The state behind the execution of `p`, first its counter and then its time written.
    abbrev pub counted : State Event E → Ptr → Ptr → Event → State Event E
    counted s p q e = record s {
      heap = write s.heap p (some (node q (record e { count = e.count -ℤ pos 1 })));
      env = act e.func e.ctx_arg s.env;
    }

    abbrev pub after : State Event E → Ptr → Ptr → Event → State Event E
    after s p q e = record (counted s p q e) {
      heap = write (counted s p q e).heap p (some (node q (ticked e)));
    }

    pub execute_event-after :
        (fuel : ℕ) (s : State Event E) {p q : Ptr} {e : Event}
        → Points s.heap p e q
        → eqb_ℤ (e.count -ℤ pos 1) (pos 0) ≡ false
        → execute_event callback fuel p (next_time e) s ≡ ok tt (after s p q e)
    unfolding execute_event count_down set_last_time
    execute_event-after fuel s {p} {q} {e} x more =
        let s₁ : State Event E = record s { env = act e.func e.ctx_arg s.env } in
        let e' : Event = record e { count = e.count -ℤ pos 1 } in
        let x₁ : Points (counted s p q e).heap p e' q = Points-write s.heap q e' x.ne_null in
        rw (
          load-ok s x,
          acts e.func e.ctx_arg s,
          load-ok s₁ x,
          set_body-ok s₁ x e',
          more,
          load-ok (counted s p q e) x₁,
          set_body-ok (counted s p q e) x₁ (ticked e),
        )

    pub after-IsEventList :
        (s : State Event E) {p q : Ptr} {e : Event} (ys xs : Cells Event)
        → Points s.heap p e q
        → IsEventList s (ys ++ (p, e) ∷ xs)
        → IsEventList (after s p q e) (ys ++ (p, ticked e) ∷ xs)
    after-IsEventList s {p} {q} {e} ys xs x is =
        let e' : Event = record e { count = e.count -ℤ pos 1 } in
        record {
          live = is.live;
          chain =
              Chain-set_body q e' (ticked e) ys xs (Points-write s.heap q e' x.ne_null)
                (Chain-set_body q e e' ys xs x is.chain);
          number =
              is.number
              ∙ ap pos (
                  omega
                    (arith, length-append ys ((p, e) ∷ xs), length-append ys ((p, ticked e) ∷ xs)));
        }

    -- One more event belongs to the part that is done.
    pub Ticked-snoc :
        {s u t : State Event E} {p : Ptr} (e : Event) (ys xs : Cells Event)
        → u.env ≡ (if is_due now e then act e.func e.ctx_arg s.env else s.env)
        → SameOutside ((p, e) ∷ []) s.heap u.heap
        → Ticked u (ys ++ (p, if is_due now e then ticked e else e) ∷ []) xs t
        → Ticked s ys ((p, e) ∷ xs) t
    unfolding tick run_due
    Ticked-snoc {s} {u} {t} {p} e ys xs env same r = record {
      list = subst (IsEventList t) (append_assoc ys _ (tick now xs)) r.list;
      env = r.env ∙ ap (run_due act now xs) env;
      same = λ a o. r.same a (ground arith) ∙ same a (ground arith);
    }

    Ticked-nil :
        (s : State Event E) (ys : Cells Event) → IsEventList s (ys ++ []) → Ticked s ys [] s
    unfolding tick run_due
    Ticked-nil s ys is = record { list = is; env = refl; same = λ a o. refl }

    -- Behind the events `ys`, the events `xs` are left to do.
    execute_loop-Ticked :
        (k fuel : ℕ) (s : State Event E) (ys xs : Cells Event)
        → IsEventList s (ys ++ xs)
        → contains (is_last now) xs ≡ false
        → length xs < k
        → Yields (λ _. Ticked s ys xs) (execute_loop callback k fuel now (first_of xs) s)
    unfolding execute_loop contains first_of
    execute_loop-Ticked zero fuel s ys xs is never more = absurd (omega arith)
    execute_loop-Ticked (suc k) fuel s ys [] is never more = yields (Ticked-nil s ys is)
    execute_loop-Ticked (suc k) fuel s ys ((p, e) ∷ xs) is never more =
        let q = first_of xs in
        let x = Points-middle ys xs is.chain in
        elim (Bool-cases (is_due now e)) [
          | inl due ↦
              let counting : eqb_ℤ (e.count -ℤ pos 1) (pos 0) ≡ false = ground arith in
              let list : IsEventList (after s p q e) ((ys ++ (p, ticked e) ∷ []) ++ xs) =
                subst (IsEventList (after s p q e)) (sym (append_assoc ys ((p, ticked e) ∷ []) xs))
                  (after-IsEventList s ys xs x is) in
              rw (not_null x, load-ok s x, due, execute_event-after fuel s x counting)
                (Yields.weaken
                  (execute_loop-Ticked k fuel (after s p q e) (ys ++ (p, ticked e) ∷ []) xs list
                    (ground arith) (omega arith))
                  λ _ t r.
                    Ticked-snoc {u = after s p q e} e ys xs (rw due)
                      (λ a o.
                        write_ne (counted s p q e).heap p a _ (ground arith)
                        ∙ write_ne s.heap p a _ (ground arith))
                      (rw due r))
          | inr waits ↦
              let list : IsEventList s ((ys ++ (p, e) ∷ []) ++ xs) =
                subst (IsEventList s) (sym (append_assoc ys ((p, e) ∷ []) xs)) is in
              rw (not_null x, load-ok s x, waits)
                (Yields.weaken
                  (execute_loop-Ticked k fuel s (ys ++ (p, e) ∷ []) xs list (ground arith)
                    (omega arith))
                  λ _ t r. Ticked-snoc {u = s} e ys xs (rw waits) (λ a o. refl) (rw waits r))
        ]

    -- A round in which no event comes to the end of its count executes the events whose time has
    -- come, in the order of the list, and advances their counters and times.
    pub execute_expire_events-Ticked :
        (fuel : ℕ) (s : State Event E) {xs : Cells Event}
        → IsEventList s xs
        → contains (is_last now) xs ≡ false
        → length xs < fuel
        → Yields (λ _. Ticked s [] xs) (execute_expire_events callback fuel now s)
    unfolding execute_expire_events
    execute_expire_events-Ticked fuel s {xs} is never more =
        rw (get_events-eq s is.live (first_of-Chain is.chain))
          (execute_loop-Ticked fuel fuel s [] xs is never more)
