-- ===== src/Timer/Insert.antt =====
-- The insertion of a new event into the list in memory is the insertion into the ordered list.
use libmisc.Base.{
  ℕ, zero, suc, ◌<◌, ◌≡◌, refl, ◌∙◌, inl, inr, Bool, false, ◌||◌, [], ◌∷◌, arith, ◌==◌,
  if◌then◌else◌, Bool-cases, length, some,
}
use libmisc.Store.{Ptr, node, write, State, ◌>>◌, set_next}
use libmisc.Store.Yields
use libmisc.Store.Yields.{Yields, yields}
use libmisc.Store.Chain.{
  Cells, Points, Chain, nil, cons, has, SameOutside, not_null, load-ok, set_next-ok, Points-write,
  Points-write_ne, frame-write, write_ne,
}
use libmisc.Time.{is_earlier_than}
use libmisc.EventList.Unlink.{OnlyHeap}
use libmisc.Timer.{Event, insert_loop}

abbrev pub earlier : Event → Event → Bool
earlier a b = is_earlier_than a.expire b.expire

-- The ordered list with one more event: behind all that are not later.
unfoldable pub insert : Ptr × Event → Cells Event → Cells Event
insert c [] = c ∷ []
insert (p, e) ((q, a) ∷ xs) =
    if earlier e a then (p, e) ∷ (q, a) ∷ xs else (q, a) ∷ insert (p, e) xs

pub has-insert :
    (r p : Ptr) (e : Event) (xs : Cells Event) → has r (insert (p, e) xs) ≡ ((r == p) || has r xs)
unfolding insert
has-insert r p e [] = refl
has-insert r p e ((q, a) ∷ xs) = ground (arith, has-insert r p e xs)

pub length-insert : (c : Ptr × Event) (xs : Cells Event) → length (insert c xs) ≡ suc (length xs)
unfolding insert
length-insert c [] = refl
length-insert (p, e) ((q, a) ∷ xs) = ground (arith, length-insert (p, e) xs)

module _ {E : Type 0} where
  -- The new node `p` was linked in behind `prev`.
  pub record Linked (s : State Event E) (p : Ptr) (e : Event) (prev : Ptr) (v : Event)
      (xs : Cells Event) (t : State Event E) : Type 0 where
    pub chain : Chain t.heap prev ((prev, v) ∷ insert (p, e) xs)
    pub same : SameOutside ((p, e) ∷ (prev, v) ∷ xs) s.heap t.heap
    pub rest : OnlyHeap s t

  -- The two writes that link `p` in between `prev` and `curr`.
  link_behind :
      (s : State Event E) {p r prev curr : Ptr} {e v : Event} {xs : Cells Event}
      → Points s.heap p e r
      → Points s.heap prev v curr
      → Chain s.heap curr xs
      → has p ((prev, v) ∷ xs) ≡ false
      → has prev xs ≡ false
      → insert (p, e) xs ≡ (p, e) ∷ xs
      → Yields (λ _. Linked s p e prev v xs) ((set_next p curr >> set_next prev p) s)
  link_behind s {p} {r} {prev} {curr} {e} {v} {xs} x y c new out first =
      let s' : State Event E = record s { heap = write s.heap p (some (node curr e)) } in
      let y' : Points s'.heap prev v curr = Points-write_ne p _ y (ground arith) in
      rw (set_next-ok s x curr, set_next-ok s' y' p)
        (yields (record {
          chain = rw first (
              cons (Points-write s'.heap p v y.ne_null) (ground arith) (
                cons {xs = xs}
                  (Points-write_ne prev _ (Points-write s.heap curr e x.ne_null) (ground arith))
                  (ground arith) (frame-write prev _ (frame-write p _ c (ground arith)) out)));
          same = λ a o.
              write_ne s'.heap prev a _ (ground arith) ∙ write_ne s.heap p a _ (ground arith);
          rest = record { live = refl; events = refl; number = refl; env = refl };
        }))

  Linked-cons :
      {s t : State Event E} {p q prev : Ptr} {e a v : Event} {xs : Cells Event}
      → Points s.heap prev v q
      → has prev ((q, a) ∷ xs) ≡ false
      → (p == prev) ≡ false
      → earlier e a ≡ false
      → Linked s p e q a xs t
      → Linked s p e prev v ((q, a) ∷ xs) t
  unfolding insert
  Linked-cons {t} {p} {q} {prev} {e} {a} {xs = xs} y out ne later u = record {
    chain = rw later (
        cons (record { ne_null = y.ne_null; holds = u.same prev (ground arith) ∙ y.holds })
          (ground (arith, has-insert prev p e xs)) u.chain);
    same = λ r o. u.same r (ground arith);
    rest = u.rest;
  }

  pub insert_loop-Linked :
      (k : ℕ) (s : State Event E) {p r prev curr : Ptr} {e v : Event} {xs : Cells Event}
      → Points s.heap p e r
      → Points s.heap prev v curr
      → Chain s.heap curr xs
      → has p ((prev, v) ∷ xs) ≡ false
      → has prev xs ≡ false
      → length xs < k
      → Yields (λ _. Linked s p e prev v xs) (insert_loop k p prev s)
  unfolding insert_loop insert
  insert_loop-Linked zero s x y c new out fuel = absurd (omega arith)
  insert_loop-Linked (suc k) s x y nil new out fuel =
      rw (load-ok s y) (link_behind s x y nil new out refl)
  insert_loop-Linked (suc k) s {p} {e} x y (cons {a} z out' c) new out fuel =
      rw (load-ok s y, not_null z, load-ok s x, load-ok s z)
        (elim (Bool-cases (earlier e a)) [
          | inl here ↦ rw here (link_behind s x y (cons z out' c) new out (rw here))
          | inr later ↦ rw later (
              Yields.weaken (insert_loop-Linked k s x z c (ground arith) out' (omega arith))
                λ _ t. Linked-cons y out (ground arith) later)
        ])
