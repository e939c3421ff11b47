-- ===== src/Timer2/Walk.antt =====
-- A chain seen from a node in its middle.
use libmisc.Base.{◌≡◌, refl, Bool, true, false, ◌||◌, some, [], ◌∷◌, ◌++◌, arith, ◌==◌}
use mathlib.Core.Path.{subst}
use libmisc.Store.{Ptr, null, Heap, node, write}
use libmisc.EventList.Find.{contains, find}
use libmisc.Store.Chain.{
  Cells, Points, Chain, nil, cons, has, Points-link, Points-write, Points-write_ne, frame-write,
}

module _ {A : Type 0} where
  -- The address of the first node.
  unfoldable pub first_of : Cells A → Ptr
  first_of [] = null
  first_of ((p, _) ∷ xs) = p

  pub has-append : (p : Ptr) (ys xs : Cells A) → has p (ys ++ xs) ≡ (has p ys || has p xs)
  has-append p [] xs = refl
  has-append p ((q, a) ∷ ys) xs = ground (arith, has-append p ys xs)

  pub first_of-Chain : {h : Heap A} {p : Ptr} {xs : Cells A} → Chain h p xs → p ≡ first_of xs
  unfolding first_of
  first_of-Chain nil = refl
  first_of-Chain (cons e out c) = refl

  -- A node in the middle of a chain, and its link.
  pub Points-middle :
      {h : Heap A} {first : Ptr} (ys : Cells A) {p : Ptr} {a : A} (xs : Cells A)
      → Chain h first (ys ++ (p, a) ∷ xs)
      → Points h p a (first_of xs)
  Points-middle {h} [] {p} {a} xs (cons e out c) = subst (Points h p a) (first_of-Chain c) e
  Points-middle (y ∷ ys) xs (cons e out c) = Points-middle ys xs c

  -- New contents for the node `p` in the middle of a chain.
  pub Chain-set_body :
      {h : Heap A} {first p : Ptr} (q : Ptr) (a b : A) (ys xs : Cells A)
      → Points h p a q
      → Chain h first (ys ++ (p, a) ∷ xs)
      → Chain (write h p (some (node q b))) first (ys ++ (p, b) ∷ xs)
  Chain-set_body {h} q a b [] xs x (cons {q = r} e out c) =
      cons {xs = xs} (Points-write h q b x.ne_null) out
        (frame-write _ _ (subst (λ l. Chain h l xs) (Points-link e x) c) out)
  Chain-set_body {p} q a b ((r, d) ∷ ys) xs x (cons e out c) =
      let split = has-append r ys ((p, a) ∷ xs) in
      let apart : (r == p) ≡ false = ground (arith, split) in
      let out' : has r (ys ++ (p, b) ∷ xs) ≡ false =
        ground (arith, split, has-append r ys ((p, b) ∷ xs)) in
      cons (Points-write_ne p _ e apart) out' (Chain-set_body q a b ys xs x c)

  pub contains-append :
      (f : A → Bool) (ys xs : Cells A) → contains f (ys ++ xs) ≡ (contains f ys || contains f xs)
  unfolding contains
  contains-append f [] xs = refl
  contains-append f ((p, a) ∷ ys) xs = ground (arith, contains-append f ys xs)

  -- The first match behind a part without one.
  pub find-append :
      (f : A → Bool) (ys : Cells A) (p : Ptr) (a : A) (xs : Cells A)
      → contains f ys ≡ false
      → f a ≡ true
      → find f (ys ++ (p, a) ∷ xs) ≡ p
  unfolding contains find
  find-append f [] p a xs absent hit = rw hit
  find-append f ((q, b) ∷ ys) p a xs absent hit = ground (arith, find-append f ys p a xs)
