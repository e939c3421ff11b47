-- ===== src/Timer2/Add.antt =====
-- `mTimer_add`, `mTimer_delete` and `mTimer_cleanup` by their branches.
use libmisc.Base.{
  ℕ, suc, ◌<◌, ◌≡◌, refl, ap, ◌∙◌, inl, inr, ◌≢◌, ◌⊎◌, true, false, some, none, Option, [], ◌∷◌,
  arith, Bool-cases, length,
}
use mathlib.Core.Path.{subst}
use libmisc.Base.Int.{ℤ, pos, minus_one, ◌+ℤ◌, pos-add-one, eqb_ℤ}
use libmisc.Base.Text.{Text}
use libmisc.Store.{Ptr, null, Node, node, write, State, ok}
use libmisc.Store.Handle.{get_events-eq, get_number-ok, get_number-eq, set_number-ok, set_events-ok}
use libmisc.Store.Yields
use libmisc.Store.Yields.{Yields, yields}
use libmisc.Store.Chain.{
  Cells, Points, Chain, nil, cons, has, SameOutside, set_next-ok, set_body-ok, Points-write,
  frame-write, write_ne, not-has_of_none,
}
use libmisc.Time.{Timeval}
use libmisc.EventList.Find.{IsEventList, contains, is_event_present-contains}
use libmisc.EventList.Delete.{Deleted, event_delete-Deleted}
use libmisc.EventList.Clear.{Cleared, cleanup_loop-Cleared}
use libmisc.Timer2.{Event, matches, new_event, link, add_block, add, delete, cleanup}

module _ {E : Type 0} where
  -- `malloc` gave a block of its own, and in a block for a first event the link is `NULL`.
  pub record IsFresh (s : State Event E) (xs : Cells Event) (p : Ptr) (link_of_block : Ptr)
      : Type 0 where
    pub ne_null : p ≢ null
    pub unused : s.heap p ≡ none
    pub clean : xs ≡ [] → link_of_block ≡ null

  -- The new event is the first.
  record Linked (s : State Event E) (p : Ptr) (e : Event) (xs : Cells Event) (t : State Event E)
      : Type 0 where
    chain : Chain t.heap t.events ((p, e) ∷ xs)
    same : SameOutside ((p, e) ∷ []) s.heap t.heap
    live : t.live ≡ s.live
    number : t.number ≡ s.number
    env : t.env ≡ s.env

  link-Linked :
      (s : State Event E) {p r first : Ptr} {e : Event} {xs : Cells Event}
      → s.live ≡ true
      → s.events ≡ first
      → Chain s.heap first xs
      → s.number ≡ pos (length xs)
      → Points s.heap p e r
      → (xs ≡ [] → r ≡ null)
      → has p xs ≡ false
      → Yields (λ _. Linked s p e xs) (link p s)
  unfolding link
  link-Linked s {p} live first nil number x clean new =
      rw (get_number-eq s live number, set_events-ok s live p)
        (yields (record {
          chain = cons (subst (Points s.heap p _) (clean refl) x) refl nil;
          same = λ a o. refl;
          live = refl;
          number = refl;
          env = refl;
        }))
  link-Linked s {p} {first = q} {e} live first (cons {xs} z out c) number x clean new =
      let several : eqb_ℤ (pos (suc (length xs))) (pos 0) ≡ false = ground arith in
      let s' : State Event E = record s { heap = write s.heap p (some (node q e)) } in
      rw
        (
          get_number-eq s live number,
          several,
          get_events-eq s live first,
          set_next-ok s x q,
          set_events-ok s' live p,
        )
        (yields (record {
          chain = cons (Points-write s.heap q e x.ne_null) new (frame-write p _ (cons z out c) new);
          same = λ a o. write_ne s.heap p a _ (ground arith);
          live = refl;
          number = refl;
          env = refl;
        }))

  -- The outcome of a successful `mTimer_add`: the new event stands before the others.
  pub record Added (s : State Event E) (p : Ptr) (e : Event) (xs : Cells Event) (ret : ℤ)
      (t : State Event E) : Type 0 where
    pub result : ret ≡ pos 0
    pub list : IsEventList t ((p, e) ∷ xs)
    pub same : SameOutside ((p, e) ∷ []) s.heap t.heap
    pub env : t.env ≡ s.env

  add_block-Added :
      (now : Timeval) (s : State Event E) (p : Ptr) (old : Node Event) (e : Event)
      {xs : Cells Event} (func ctx : ℕ) (interval count : ℤ) (name : Option Text)
      → new_event now func ctx interval count name old.body ≡ e
      → IsEventList s xs
      → IsFresh s xs p old.next
      → Yields (Added s p e xs) (add_block now (p, old) func ctx interval count name s)
  unfolding add_block
  add_block-Added now s p old e {xs} func ctx interval count name new is fresh =
      let out : has p xs ≡ false = not-has_of_none p is.chain fresh.unused in
      let s₁ : State Event E = record s { heap = write s.heap p (some old) } in
      let s₂ : State Event E = record s₁ { heap = write s₁.heap p (some (node old.next e)) } in
      let x₁ : Points s₁.heap p old.body old.next =
        Points-write s.heap old.next old.body fresh.ne_null in
      let x₂ : Points s₂.heap p e old.next = Points-write s₁.heap old.next e fresh.ne_null in
      let c : Chain s₂.heap s.events xs = frame-write p _ (frame-write p _ is.chain out) out in
      rw (new, set_body-ok s₁ x₁ e)
        (Yields.bind (link-Linked s₂ is.live refl c is.number x₂ fresh.clean out) λ _ t u.
          let live : t.live ≡ true = u.live ∙ is.live in
          rw (get_number-ok t live, set_number-ok t live (t.number +ℤ pos 1))
            (yields (record {
              result = refl;
              list = record {
                live = live;
                chain = u.chain;
                number = ap (λ n. n +ℤ pos 1) (u.number ∙ is.number) ∙ pos-add-one (length xs);
              };
              same = λ a o.
                  u.same a o
                  ∙ (write_ne s₁.heap p a _ (ground arith) ∙ write_ne s.heap p a _ (ground arith));
              env = u.env;
            })))

module _ {E : Type 0} (k : ℕ) (s : State Event E) {xs : Cells Event} (func ctx : ℕ)
    (is : IsEventList s xs) (fuel : length xs < k) where
  -- `mTimer_add` of a function and data that no event has, in a block of its own, puts the new event
  -- before the others.
  pub add-Added :
      (now : Timeval) (interval count : ℤ) (name : Option Text) (p : Ptr) (old : Node Event)
      → contains (matches func ctx) xs ≡ false
      → IsFresh s xs p old.next
      → Yields
          (Added s p (new_event now func ctx interval count name old.body) xs)
          (add k now (some (p, old)) func ctx interval count name s)
  unfolding add
  add-Added now interval count name p old absent fresh =
      rw (is_event_present-contains (matches func ctx) k is fuel, absent)
        (add_block-Added now s p old _ func ctx interval count name refl is fresh)

  -- Where an event has the function and the data already, or `malloc` fails, the result is -1 and
  -- nothing changes.
  pub add_refused :
      (now : Timeval) (interval count : ℤ) (name : Option Text) (block : Option (Ptr × Node Event))
      → (contains (matches func ctx) xs ≡ true) ⊎ (block ≡ none)
      → add k now block func ctx interval count name s ≡ ok minus_one s
  unfolding add
  add_refused now interval count name block (inl present) =
      rw (is_event_present-contains (matches func ctx) k is fuel, present)
  add_refused now interval count name block (inr failed) =
      rw (is_event_present-contains (matches func ctx) k is fuel, failed)
        (elim (Bool-cases (contains (matches func ctx) xs)) [ inl h ↦ rw h | inr h ↦ rw h ])

  -- `mTimer_delete` of an event that is present unlinks and frees the first one that matches.
  pub delete-Deleted :
      contains (matches func ctx) xs ≡ true
      → Yields (Deleted (matches func ctx) s xs) (delete k func ctx s)
  unfolding delete
  delete-Deleted present = event_delete-Deleted (matches func ctx) k s is present fuel

-- `mTimer_cleanup` frees the node of each event and the handle, each once, and nothing else.
pub cleanup_frees :
    {E : Type 0} (k : ℕ) (s : State Event E) {xs : Cells Event}
    → IsEventList s xs
    → length xs < k
    → Yields (λ _. Cleared s xs) (cleanup k s)
unfolding cleanup
cleanup_frees k s is fuel = cleanup_loop-Cleared k s is fuel
