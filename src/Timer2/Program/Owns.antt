-- ===== src/Timer2/Program/Owns.antt =====
-- The memory of a timer of misc_timer2.c in a program.
use libmisc.Base.{
  ℕ, ◌≡◌, refl, sym, ap, ◌∙◌, inl, inr, Bool, true, false, ◌||◌, none, [], ◌∷◌, ◌==◌, Bool-cases,
  arith, length,
}
use libmisc.Base.Int.{ℤ}
use libmisc.Store.{Ptr, null, Heap, State}
use libmisc.Store.Chain.{Cells, Chain, nil, cons, has, not_null, SameOutside, not-has_of_none}
use libmisc.Time.{Timeval}
use libmisc.EventList.Find.{IsEventList, contains}
use libmisc.EventList.Unlink.{erase, has-erase, not-has-erase}
use libmisc.EventList.Delete.{Deleted}
use libmisc.Timer2.{Event, matches}
use libmisc.Timer2.Add.{Added}
use libmisc.Timer2.Execute.{tick, Ticked}
use libmisc.Timer2.Fault.{IsDistinct}
use libmisc.Timer2.Lifetime.{tick-IsApart}
use libmisc.Timer2.Program.Keys.{IsApart-erase, IsDistinct-cons}

has-tick : (now : Timeval) (p : Ptr) (xs : Cells Event) → has p (tick now xs) ≡ has p xs
unfolding tick
has-tick now p [] = refl
has-tick now p ((q, e) ∷ xs) = ap (λ b. (p == q) || b) (has-tick now p xs)

pub is_empty :
    (h : Heap Event) {p : Ptr} {xs : Cells Event} → Chain h p xs → (p == null) ≡ (length xs == 0)
is_empty h nil = refl
is_empty h (cons {xs} x out c) = not_null x ∙ ground arith

module _ {E : Type 0} (h₀ : Heap Event) where
  -- The timer is well formed; its nodes are blocks that were not in use in `h₀`, and all other memory is
  -- that of `h₀`.
  pub record Owns (s : State Event E) (xs : Cells Event) : Type 0 where
    pub list : IsEventList s xs
    pub distinct : IsDistinct xs
    pub kept : SameOutside xs h₀ s.heap
    pub own : (p : Ptr) → has p xs ≡ true → h₀ p ≡ none

  pub Added-Owns :
      {s t : State Event E} {p : Ptr} {e : Event} {xs : Cells Event} {r : ℤ}
      → Owns s xs
      → s.heap p ≡ none
      → contains (matches e.func e.ctx_arg) xs ≡ false
      → Added s p e xs r t
      → Owns t ((p, e) ∷ xs)
  Added-Owns {s} {t} {p} {e} {xs} o unused absent x =
      let out : has p xs ≡ false = not-has_of_none p o.list.chain unused in
      record {
        list = x.list;
        distinct = IsDistinct-cons p e xs absent o.distinct;
        kept = λ q apart. x.same q (ground (arith, apart)) ∙ o.kept q (ground (arith, apart));
        own = λ q among. elim (Bool-cases (q == p)) [
          | inl here ↦
              let here' : q ≡ p = ground (arith, here) in ap h₀ here' ∙ sym (o.kept p out) ∙ unused
          | inr other ↦ o.own q (ground (arith, among, other))
        ];
      }

  pub Deleted-Owns :
      {s t : State Event E} {f : Event → Bool} {xs : Cells Event} {r : ℤ}
      → Owns s xs
      → Deleted f s xs r t
      → Owns t (erase f xs)
  Deleted-Owns {s} {t} {f} {xs} o x = record {
    list = x.list;
    distinct = IsApart-erase f [] xs o.distinct;
    kept = λ q apart. elim (Bool-cases (has q xs)) [
      | inl inside ↦ ap t.heap (has-erase f q xs inside apart) ∙ (x.freed ∙ sym (o.own q inside))
      | inr outside ↦ x.same q outside ∙ o.kept q outside
    ];
    own = λ q among. elim (Bool-cases (has q xs)) [
      | inl inside ↦ o.own q inside
      | inr outside ↦ absurd (ground (arith, not-has-erase f q xs outside, among))
    ];
  }

  pub Ticked-Owns :
      {s t : State Event E} {now : Timeval} {act : ℕ → ℕ → E → E} {xs : Cells Event}
      → Owns s xs
      → Ticked now act s [] xs t
      → Owns t (tick now xs)
  Ticked-Owns {s} {t} {now} {act} {xs} o x = record {
    list = x.list;
    distinct = tick-IsApart now [] [] xs (λ f c. refl) o.distinct;
    kept = λ q apart.
        let outside : has q xs ≡ false = sym (has-tick now q xs) ∙ apart in
        x.same q outside ∙ o.kept q outside;
    own = λ q among. o.own q (sym (has-tick now q xs) ∙ among);
  }
