-- ===== src/Timer/Dangling.antt =====
-- The link of a first event. `timer_event_add` does not write the link of an event that it puts into
-- an empty list, so the list goes on wherever the old contents of the block point to.
use libmisc.Base.{ℕ, ◌<◌, ◌≡◌, refl, ◌∙◌, ◌≢◌, some, none, Option, [], arith}
use mathlib.Core.Path.{subst}
use libmisc.Base.Int.{ℤ, pos, ◌+ℤ◌}
use libmisc.Base.Text.{Text}
use libmisc.Store.{Ptr, null, Heap, Node, node, write, State}
use libmisc.Store.Handle.{get_number-ok, get_number-eq, set_number-ok, set_events-ok}
use libmisc.Store.Yields.{Yields, yields}
use libmisc.Store.Chain.{Cells, Points, Chain, nil, cons, set_body-ok, Points-write, write_ne}
use libmisc.Time.{Timeval}
use libmisc.EventList.Find.{IsEventList, contains, is_event_present-contains}
use libmisc.Timer.{Event, matches, new_event, event_add}

not-Chain_of_none :
    {A : Type 0} {h : Heap A} {p : Ptr} {xs : Cells A} → Chain h p xs → p ≢ null → h p ≡ none → ⊥
not-Chain_of_none nil ne unused = ne refl
not-Chain_of_none (cons x out c) ne unused = ground (arith, x.holds)

-- A chain from a node goes on from its link.
Chain-next :
    {A : Type 0} {h : Heap A} {p q : Ptr} {a : A} {xs : Cells A}
    → Chain h p xs
    → Points h p a q
    → (ys : Cells A) × Chain h q ys
Chain-next nil x = absurd (x.ne_null refl)
Chain-next {h} {q} {a} (cons {q = r} {a = b} {xs} y out c) x =
    (xs, subst (λ l. Chain h l xs) same c)
  where
    same : r ≡ q
    same = ground (arith, y.holds, x.holds)

module _ {E : Type 0} (k : ℕ) (now : Timeval) (s : State Event E) (func ctx : ℕ) (ms : ℤ)
    (name : Option Text) where
  -- The first event of an empty list, in a block whose old contents have a link that is neither
  -- `NULL` nor the address of a node: the call reports success, and there is no list of events that
  -- the handle then holds.
  pub event_add_dangling :
      (p : Ptr) (old : Node Event)
      → IsEventList s []
      → 0 < k
      → p ≢ null
      → s.heap p ≡ none
      → old.next ≢ null
      → old.next ≢ p
      → s.heap old.next ≡ none
      → Yields
          (λ r t. (r ≡ pos 0) × ((xs : Cells Event) → ¬ IsEventList t xs))
          (event_add k now (some (p, old)) func ctx ms name s)
  unfolding event_add contains
  event_add_dangling p old is fuel ne fresh link other unused =
      let e : Event = new_event now func ctx ms name old.body in
      let s₁ : State Event E = record s { heap = write s.heap p (some old) } in
      let s₂ : State Event E = record s₁ { heap = write s₁.heap p (some (node old.next e)) } in
      let s₃ : State Event E = record s₂ { events = p } in
      let x₁ : Points s₁.heap p old.body old.next = Points-write s.heap old.next old.body ne in
      rw
        (
          is_event_present-contains (matches func ctx) k is fuel,
          set_body-ok s₁ x₁ e,
          get_number-eq s₂ is.live is.number,
          set_events-ok s₂ is.live p,
          get_number-ok s₃ is.live,
          set_number-ok s₃ is.live (s.number +ℤ pos 1),
        )
        (yields (
          refl,
          λ xs broken.
              let (ys, c) = Chain-next broken.chain (Points-write s₁.heap old.next e ne) in
              not-Chain_of_none c link (
                write_ne s₁.heap p old.next _ (ground arith)
                ∙ (write_ne s.heap p old.next _ (ground arith) ∙ unused)),
        ))
