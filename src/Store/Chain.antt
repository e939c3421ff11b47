-- ===== src/Store/Chain.antt =====
-- Lists in memory: the addresses and contents of the nodes that the links lead through, in order.
use libmisc.Base.{
  ◌≡◌, ◌≢◌, refl, Bool, true, false, ◌||◌, Option, none, some, List, [], ◌∷◌, arith, ◌==◌,
}
use libmisc.Store.{
  Ptr, null, Node, node, Heap, write, State, ok, fault, load, set_next, set_body, free,
}

abbrev pub Cells : Type 0 → Type 0
Cells A = List (Ptr × A)

-- `p` holds a node with link `q` and content `a`.
pub record Points {A : Type 0} (h : Heap A) (p : Ptr) (a : A) (q : Ptr) : Type 0 where
  pub ne_null : p ≢ null
  pub holds : h p ≡ some (node q a)

module _ {A : Type 0} where
  abbrev pub has : Ptr → Cells A → Bool
  has p [] = false
  has p ((q, _) ∷ xs) = (p == q) || has p xs

  -- `g` agrees with `h` away from the addresses of `xs`.
  abbrev pub SameOutside : Cells A → Heap A → Heap A → Type 0
  SameOutside xs h g = (p : Ptr) → has p xs ≡ false → g p ≡ h p

  -- From `p` the links lead through the distinct nodes `xs` to `NULL`.
  pub data Chain (h : Heap A) : Ptr → Cells A → Type 0 where
    nil : Chain h null []
    cons :
        {p q : Ptr} {a : A} {xs : Cells A}
        → Points h p a q
        → has p xs ≡ false
        → Chain h q xs
        → Chain h p ((p, a) ∷ xs)

pub not_null : {A : Type 0} {h : Heap A} {p q : Ptr} {a : A} → Points h p a q → (p == null) ≡ false
not_null e = ground (arith, e.ne_null)

module _ {A E : Type 0} (s : State A E) {p q : Ptr} {a : A} (e : Points s.heap p a q) where
  pub load-ok : load p s ≡ ok (node q a) s
  unfolding load
  load-ok = ground (arith, not_null e, e.holds)

  pub set_next-ok :
      (r : Ptr) → set_next p r s ≡ ok tt (record s { heap = write s.heap p (some (node r a)) })
  unfolding set_next
  set_next-ok r = ground (arith, load-ok)

  pub set_body-ok :
      (b : A) → set_body p b s ≡ ok tt (record s { heap = write s.heap p (some (node q b)) })
  unfolding set_body
  set_body-ok b = ground (arith, load-ok)

  pub free-ok : free p s ≡ ok tt (record s { heap = write s.heap p none })
  unfolding free
  free-ok = ground (arith, load-ok)

-- A node has one link.
pub Points-link :
    {A : Type 0} {h : Heap A} {p q r : Ptr} {a b : A} → Points h p a q → Points h p b r → q ≡ r
Points-link x y = ground (arith, x.holds, y.holds)

pub load-none : {A E : Type 0} (s : State A E) (p : Ptr) → s.heap p ≡ none → load p s ≡ fault
unfolding load
load-none s p unused = ground arith

pub write_ne :
    {A : Type 0} (h : Heap A) (p r : Ptr) (c : Option (Node A))
    → (r == p) ≡ false
    → write h p c r ≡ h r
unfolding write
write_ne h p r c ne = rw ne

pub write_self : {A : Type 0} (h : Heap A) (p : Ptr) (c : Option (Node A)) → write h p c p ≡ c
unfolding write
write_self h p c = ground arith

pub Points-write :
    {A : Type 0} (h : Heap A) {p : Ptr} (q : Ptr) (a : A)
    → p ≢ null
    → Points (write h p (some (node q a))) p a q
unfolding write
Points-write h q a ne = record { ne_null = ne; holds = ground arith }

pub Points-write_ne :
    {A : Type 0} {h : Heap A} {p q : Ptr} {a : A} (r : Ptr) (c : Option (Node A))
    → Points h p a q
    → (p == r) ≡ false
    → Points (write h r c) p a q
unfolding write
Points-write_ne r c e ne = record { ne_null = e.ne_null; holds = ground (arith, e.holds) }

module _ {A : Type 0} {h : Heap A} where
  -- A chain survives any change that spares its own nodes.
  pub frame :
      {g : Heap A} {p : Ptr} {xs : Cells A}
      → Chain h p xs
      → ((r : Ptr) → has r xs ≡ true → g r ≡ h r)
      → Chain g p xs
  frame nil same = nil
  frame (cons {p} e out c) same =
      cons (record { ne_null = e.ne_null; holds = ground (arith, same p, e.holds) }) out
        (frame c λ r i. same r (ground arith))

  pub frame-write :
      {p : Ptr} {xs : Cells A} (r : Ptr) (c : Option (Node A))
      → Chain h p xs
      → has r xs ≡ false
      → Chain (write h r c) p xs
  unfolding write
  frame-write r c chain out = frame chain (ground arith)

  -- An unused address is not on a chain.
  pub not-has_of_none :
      {p : Ptr} {xs : Cells A} (r : Ptr) → Chain h p xs → h r ≡ none → has r xs ≡ false
  not-has_of_none r nil unused = refl
  not-has_of_none r (cons e out c) unused = ground (arith, e.holds, not-has_of_none r c unused)
