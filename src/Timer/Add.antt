-- ===== src/Timer/Add.antt =====
-- `timer_event_add` by its branches.
use libmisc.Base.{
  ℕ, ◌<◌, ◌≡◌, refl, sym, ap, ◌∙◌, inl, inr, ◌≢◌, ◌⊎◌, true, false, Option, none, some, [], ◌∷◌,
  arith, Bool-cases, length,
}
use libmisc.Base.Int.{ℤ, pos, minus_one, ◌+ℤ◌, pos-add-one}
use libmisc.Base.Text.{Text}
use libmisc.Store.{Ptr, null, Node, node, write, State, ok}
use libmisc.Store.Handle.{get_number-ok, set_number-ok}
use libmisc.Store.Yields
use libmisc.Store.Yields.{Yields, yields}
use libmisc.Store.Chain.{
  Cells, Points, Chain, has, SameOutside, set_body-ok, Points-write, frame-write, write_ne,
  not-has_of_none,
}
use libmisc.Time.{Timeval}
use libmisc.EventList.Find.{IsEventList, contains, is_event_present-contains}
use libmisc.Timer.{Event, matches, new_event, add_block, event_add}
use libmisc.Timer.Link.{link-Inserted}
use libmisc.Timer.Insert.{insert, length-insert}

module _ {E : Type 0} where
  -- What `timer_event_add` does where no event has the function and the data: the new event stands
  -- in the ordered list, in the block that `malloc` gave, and the handle counts it.
  pub record Added (s : State Event E) (p : Ptr) (e : Event) (xs : Cells Event) (ret : ℤ)
      (t : State Event E) : Type 0 where
    pub result : ret ≡ pos 0
    pub list : IsEventList t (insert (p, e) xs)
    pub same : SameOutside ((p, e) ∷ xs) s.heap t.heap
    pub env : t.env ≡ s.env

  -- `malloc` gave a block of its own, and in a block for a first event the link is `NULL`.
  pub record IsFresh (s : State Event E) (xs : Cells Event) (block : Ptr × Node Event)
      : Type 0 where
    pub ne_null : block.0 ≢ null
    pub unused : s.heap block.0 ≡ none
    pub clean : xs ≡ [] → block.1.next ≡ null

  add_block-Added :
      (k : ℕ) (now : Timeval) (s : State Event E) {p : Ptr} {old : Node Event} {xs : Cells Event}
      (func ctx : ℕ) (ms : ℤ) (name : Option Text)
      → IsEventList s xs
      → IsFresh s xs (p, old)
      → length xs < k
      → Yields
          (Added s p (new_event now func ctx ms name old.body) xs)
          (add_block k now (p, old) func ctx ms name s)
  unfolding add_block
  add_block-Added k now s {p} {old} {xs} func ctx ms name is fresh fuel =
      let e : Event = new_event now func ctx ms name old.body in
      let out : has p xs ≡ false = not-has_of_none p is.chain fresh.unused in
      let s₁ : State Event E = record s { heap = write s.heap p (some old) } in
      let s₂ : State Event E = record s₁ { heap = write s₁.heap p (some (node old.next e)) } in
      let x₁ : Points s₁.heap p old.body old.next =
        Points-write s.heap old.next old.body fresh.ne_null in
      let x₂ : Points s₂.heap p e old.next = Points-write s₁.heap old.next e fresh.ne_null in
      let c : Chain s₂.heap s.events xs = frame-write p _ (frame-write p _ is.chain out) out in
      rw (set_body-ok s₁ x₁ e) (
        Yields.bind (link-Inserted k s₂ is.live refl c is.number x₂ fresh.clean out fuel) λ _ t u.
          let live : t.live ≡ true = u.live ∙ is.live in
          rw (get_number-ok t live, set_number-ok t live (t.number +ℤ pos 1))
            (yields (record {
              result = refl;
              list = record {
                live = live;
                chain = u.chain;
                number =
                    ap (λ n. n +ℤ pos 1) (u.number ∙ is.number)
                    ∙ (pos-add-one (length xs) ∙ ap pos (sym (length-insert (p, e) xs)));
              };
              same = λ a o.
                  u.same a o
                  ∙ (write_ne s₁.heap p a _ (ground arith) ∙ write_ne s.heap p a _ (ground arith));
              env = u.env;
            })))

module _ {E : Type 0} (k : ℕ) (now : Timeval) (s : State Event E) {xs : Cells Event} (func ctx : ℕ)
    (ms : ℤ) (name : Option Text) (is : IsEventList s xs) (fuel : length xs < k) where
  pub event_add-Added :
      {p : Ptr} {old : Node Event}
      → contains (matches func ctx) xs ≡ false
      → IsFresh s xs (p, old)
      → Yields
          (Added s p (new_event now func ctx ms name old.body) xs)
          (event_add k now (some (p, old)) func ctx ms name s)
  unfolding event_add
  event_add-Added absent fresh =
      rw (is_event_present-contains (matches func ctx) k is fuel, absent)
        (add_block-Added k now s func ctx ms name is fresh fuel)

  -- Where an event has the function and the data already, or `malloc` fails, the result is -1 and
  -- nothing changes.
  pub event_add-refused :
      (block : Option (Ptr × Node Event))
      → (contains (matches func ctx) xs ≡ true) ⊎ (block ≡ none)
      → event_add k now block func ctx ms name s ≡ ok minus_one s
  unfolding event_add
  event_add-refused block (inl present) =
      rw (is_event_present-contains (matches func ctx) k is fuel, present)
  event_add-refused block (inr failed) =
      rw (is_event_present-contains (matches func ctx) k is fuel, failed)
        (elim (Bool-cases (contains (matches func ctx) xs)) [ inl h ↦ rw h | inr h ↦ rw h ])
