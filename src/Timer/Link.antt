-- ===== src/Timer/Link.antt =====
-- The part of `timer_event_add` that links a new event into the list.
use libmisc.Base.{
  ℕ, suc, ◌<◌, ◌≡◌, refl, sym, ◌∙◌, inl, inr, true, false, some, [], ◌∷◌, arith, Bool-cases, length,
}
use mathlib.Core.Path.{subst}
use libmisc.Base.Int.{pos, eqb_ℤ}
use libmisc.Store.{Ptr, null, node, write, State}
use libmisc.Store.Handle.{get_events-eq, set_events-ok, get_number-eq}
use libmisc.Store.Yields
use libmisc.Store.Yields.{Yields, yields}
use libmisc.Store.Chain.{
  Cells, Points, Chain, nil, cons, has, SameOutside, load-ok, set_next-ok, Points-write,
  frame-write, write_ne,
}
use libmisc.Timer.{Event, link}
use libmisc.Timer.Insert.{earlier, insert, insert_loop-Linked}

module _ {E : Type 0} where
  -- `e` was linked in as the node `p`; the number is not yet changed.
  pub record Inserted (s : State Event E) (p : Ptr) (e : Event) (xs : Cells Event)
      (t : State Event E) : Type 0 where
    pub chain : Chain t.heap t.events (insert (p, e) xs)
    pub same : SameOutside ((p, e) ∷ xs) s.heap t.heap
    pub live : t.live ≡ s.live
    pub number : t.number ≡ s.number
    pub env : t.env ≡ s.env

  pub link-Inserted :
      (k : ℕ) (s : State Event E) {p r first : Ptr} {e : Event} {xs : Cells Event}
      → s.live ≡ true
      → s.events ≡ first
      → Chain s.heap first xs
      → s.number ≡ pos (length xs)
      → Points s.heap p e r
      → (xs ≡ [] → r ≡ null)
      → has p xs ≡ false
      → length xs < k
      → Yields (λ _. Inserted s p e xs) (link k p s)
  unfolding link insert
  link-Inserted k s {p} {r} live first nil number x clean new fuel =
      rw (get_number-eq s live number, set_events-ok s live p)
        (yields (record {
          chain = cons (subst (Points s.heap p _) (clean refl) x) refl nil;
          same = λ a o. refl;
          live = refl;
          number = refl;
          env = refl;
        }))
  link-Inserted k s {p} {r} {first = q} {e} live first (cons {a} {xs} z out c) number x clean new
        fuel =
      let several : eqb_ℤ (pos (suc (length xs))) (pos 0) ≡ false = ground arith in
      let s' : State Event E = record s { heap = write s.heap p (some (node q e)) } in
      rw
        (get_number-eq s live number, several, get_events-eq s live first, load-ok s x, load-ok s z)
        (elim (Bool-cases (earlier e a)) [
          | inl front ↦
              rw (front, set_next-ok s x q, set_events-ok s' live p)
                (yields (record {
                  chain = rw front (
                      cons (Points-write s.heap q e x.ne_null) new
                        (frame-write p _ (cons z out c) new));
                  same = λ b o. write_ne s.heap p b _ (ground arith);
                  live = refl;
                  number = refl;
                  env = refl;
                }))
          | inr behind ↦ rw behind (
              Yields.weaken (insert_loop-Linked k s x z c new out (omega arith)) λ _ t u. record {
                chain = rw behind (
                    subst (λ b. Chain t.heap b ((q, a) ∷ insert (p, e) xs))
                      (sym (u.rest.events ∙ first)) u.chain);
                same = u.same;
                live = u.rest.live;
                number = u.rest.number;
                env = u.rest.env;
              })
        ])
