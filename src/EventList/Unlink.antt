-- ===== src/EventList/Unlink.antt =====
-- Deleting an event.
use libmisc.Base.{
  some, ℕ, zero, suc, ◌+◌, ◌<◌, ◌≡◌, refl, ◌∙◌, inl, inr, Bool, true, false, [], ◌∷◌, arith, ◌==◌,
  if◌then◌else◌, Bool-cases, length,
}
use libmisc.Store.{Ptr, null, write, State, ok, pure, ◌>>◌, set_next, node}
use libmisc.Store.Yields
use libmisc.Store.Yields.{Yields, yields}
use libmisc.Store.Chain.{
  Cells, Points, Chain, nil, cons, has, SameOutside, not_null, load-ok, set_next-ok, Points-write,
  Points-write_ne, frame-write, write_ne,
}
use libmisc.EventList.{unlink_loop}
use libmisc.EventList.Find.{contains, find}

module _ {A : Type 0} where
  -- The list without its first matching event.
  unfoldable pub erase : (A → Bool) → Cells A → Cells A
  erase matches [] = []
  erase matches ((p, a) ∷ xs) = if matches a then xs else (p, a) ∷ erase matches xs

  pub not-has-erase :
      (matches : A → Bool) (r : Ptr) (xs : Cells A)
      → has r xs ≡ false
      → has r (erase matches xs) ≡ false
  unfolding erase
  not-has-erase matches r [] o = refl
  not-has-erase matches r ((p, a) ∷ xs) o = ground (arith, not-has-erase matches r xs)

  -- The address that is taken out is that of the event that was found.
  pub has-erase :
      (matches : A → Bool) (r : Ptr) (xs : Cells A)
      → has r xs ≡ true
      → has r (erase matches xs) ≡ false
      → r ≡ find matches xs
  unfolding erase find
  has-erase matches r [] h out = ground (arith, h)
  has-erase matches r ((q, a) ∷ xs) h out = elim (Bool-cases (matches a)) [
    | inl hit ↦ ground (arith, h, out, hit)
    | inr miss ↦ ground (arith, has-erase matches r xs)
  ]

  pub length-erase :
      (matches : A → Bool) (xs : Cells A)
      → length (erase matches xs) + (if contains matches xs then 1 else 0) ≡ length xs
  unfolding erase contains
  length-erase matches [] = refl
  length-erase matches ((p, a) ∷ xs) = ground (arith, length-erase matches xs)

module _ {A E : Type 0} where
  -- The handle and the event functions' data are as they were.
  pub record OnlyHeap (s t : State A E) : Type 0 where
    pub live : t.live ≡ s.live
    pub events : t.events ≡ s.events
    pub number : t.number ≡ s.number
    pub env : t.env ≡ s.env

module _ {A E : Type 0} (matches : A → Bool) where
  -- The node at `r` was unlinked from the chain `xs`, which begins at `p`, and is still allocated.
  pub record Unlinked (s : State A E) (p : Ptr) (xs : Cells A) (r : Ptr) (t : State A E)
      : Type 0 where
    pub result : r ≡ find matches xs
    pub unlinked : (a : A) × Points t.heap r a null
    pub member : has r xs ≡ true
    pub out : has r (erase matches xs) ≡ false
    pub chain : Chain t.heap p (erase matches xs)
    pub same : SameOutside xs s.heap t.heap
    pub rest : OnlyHeap s t

  unlink_loop-null : (k : ℕ) (s : State A E) → 0 < k → unlink_loop k matches null s ≡ ok null s
  unfolding unlink_loop
  unlink_loop-null zero s fuel = absurd (omega arith)
  unlink_loop-null (suc k) s fuel = refl

  -- Where no event matches the loop changes nothing.
  pub unlink_loop-absent :
      (k : ℕ) (s : State A E) {prev curr : Ptr} {v : A} {xs : Cells A}
      → Points s.heap prev v curr
      → Chain s.heap curr xs
      → contains matches xs ≡ false
      → suc (length xs) < k
      → unlink_loop k matches prev s ≡ ok null s
  unfolding unlink_loop contains
  unlink_loop-absent zero s e c absent fuel = absurd (omega arith)
  unlink_loop-absent (suc k) s e nil absent fuel =
      rw (not_null e, load-ok s e) (unlink_loop-null k s (omega arith))
  unlink_loop-absent (suc k) s e (cons {a = w} e' out' c) absent fuel =
      let miss : matches w ≡ false = ground arith in
      rw (not_null e, load-ok s e, not_null e', load-ok s e', miss)
        (unlink_loop-absent k s e' c (ground arith) (omega arith))

  -- Unlinking `p`, the event behind `prev`.
  unlink_next-Unlinked :
      (s : State A E) {prev p q : Ptr} {v w : A} {xs : Cells A}
      → Points s.heap prev v p
      → matches v ≡ false
      → has prev ((p, w) ∷ xs) ≡ false
      → Points s.heap p w q
      → has p xs ≡ false
      → Chain s.heap q xs
      → matches w ≡ true
      → Yields
          (Unlinked s prev ((prev, v) ∷ (p, w) ∷ xs))
          ((set_next prev q >> (set_next p null >> pure p)) s)
  unfolding find erase
  unlink_next-Unlinked s {prev} {p} {q} {v} {w} {xs} e first out e' out' c hit =
      let s' : State A E = record s { heap = write s.heap prev (some (node q v)) } in
      let apart : (p == prev) ≡ false = ground arith in
      let e₁ : Points s'.heap p w q = Points-write_ne prev _ e' apart in
      rw (set_next-ok s e q, set_next-ok s' e₁ null)
        (yields (record {
          result = rw (first, hit);
          unlinked = (w, Points-write s'.heap null w e'.ne_null);
          member = ground arith;
          out = rw (first, hit) (ground arith);
          chain =
              rw (first, hit)
                (cons {xs = xs}
                  (Points-write_ne p _ (Points-write s.heap q v e.ne_null) (ground arith))
                  (ground arith) (frame-write p _ (frame-write prev _ c (ground arith)) out'));
          same = λ r o.
              write_ne s'.heap p r _ (ground arith) ∙ write_ne s.heap prev r _ (ground arith);
          rest = record { live = refl; events = refl; number = refl; env = refl };
        }))

  -- The rest of the chain, behind an event that does not match.
  Unlinked-cons :
      {s t : State A E} {prev p r : Ptr} {v : A} {xs : Cells A}
      → Points s.heap prev v p
      → matches v ≡ false
      → has prev xs ≡ false
      → Unlinked s p xs r t
      → Unlinked s prev ((prev, v) ∷ xs) r t
  unfolding find erase
  Unlinked-cons {t} {prev} {xs} e first out u = record {
    result = rw first u.result;
    unlinked = u.unlinked;
    member = ground (arith, u.member);
    out = rw first (ground (arith, u.member, u.out));
    chain = rw first (
        cons (record { ne_null = e.ne_null; holds = ground (arith, u.same prev out, e.holds) })
          (not-has-erase matches prev xs out) u.chain);
    same = λ a o. u.same a (ground arith);
    rest = u.rest;
  }

  pub unlink_loop-Unlinked :
      (k : ℕ) (s : State A E) {prev curr : Ptr} {v : A} {xs : Cells A}
      → Points s.heap prev v curr
      → matches v ≡ false
      → has prev xs ≡ false
      → Chain s.heap curr xs
      → contains matches xs ≡ true
      → suc (length xs) < k
      → Yields (Unlinked s prev ((prev, v) ∷ xs)) (unlink_loop k matches prev s)
  unfolding unlink_loop contains
  unlink_loop-Unlinked zero s e first out c present fuel = absurd (omega arith)
  unlink_loop-Unlinked (suc k) s e first out nil present fuel = cc
  unlink_loop-Unlinked (suc k) s e first out (cons {a = w} e' out' c) present fuel =
      rw (not_null e, load-ok s e, not_null e', load-ok s e')
        (elim (Bool-cases (matches w)) [
          | inl hit ↦ rw hit (unlink_next-Unlinked s e first out e' out' c hit)
          | inr miss ↦ rw miss (
              Yields.weaken (unlink_loop-Unlinked k s e' miss out' c (ground arith) (omega arith))
                λ r t. Unlinked-cons e first out)
        ])
