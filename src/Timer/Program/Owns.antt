-- ===== src/Timer/Program/Owns.antt =====
-- The memory of a timer in a program: its list, and what was there before `timer_init`.
use libmisc.Base.{
  ℕ, ◌≤◌, ◌≡◌, ◌≢◌, sym, ap, ◌∙◌, inl, inr, true, false, ◌||◌, Option, none, some, ◌==◌, Bool-cases,
  arith, length,
}
use libmisc.Store.{Ptr, null, Node, Heap, State}
use libmisc.Store.Chain.{Cells, has, SameOutside, not-has_of_none}
use libmisc.Time.{Timeval}
use libmisc.EventList.Unlink.{erase, not-has-erase, has-erase}
use libmisc.Timer.{Event, matches}
use libmisc.Timer.Insert.{insert, has-insert}
use libmisc.Timer.Order.{IsTimer}
use libmisc.Timer.Contract.{Extended, Removed}
use libmisc.Timer.Expire.{Fired, expired, pending}
use libmisc.Timer.Program.Events.{has-expired, pending-IsOrdered, pending-IsDistinct}

-- `malloc` gives blocks that are not in use, with any contents. With less than `room` events beside `h₀`, it does not fail.
pub record IsBlock (h : Heap Event) (block : Ptr × Node Event) : Type 0 where
  pub ne_null : block.0 ≢ null
  pub unused : h block.0 ≡ none

pub record IsMalloc (h₀ : Heap Event) (room : ℕ) (malloc : Heap Event → Option (Ptr × Node Event))
    : Type 0 where
  pub gives : (h : Heap Event) (b : Ptr × Node Event) → malloc h ≡ some b → IsBlock h b
  pub lasts :
      (h : Heap Event) (xs : Cells Event) → SameOutside xs h₀ h → malloc h ≡ none → room ≤ length xs

module _ {E : Type 0} (h₀ : Heap Event) where
  -- The timer is well formed; its nodes are blocks that were not in use in `h₀`, and all other memory is
  -- that of `h₀`.
  pub record Owns (s : State Event E) (xs : Cells Event) : Type 0 where
    pub timer : IsTimer s xs
    pub kept : SameOutside xs h₀ s.heap
    pub own : (p : Ptr) → has p xs ≡ true → h₀ p ≡ none

  pub Extended-Owns :
      {s t : State Event E} {p : Ptr} {e : Event} {xs : Cells Event} {r : _}
      → Owns s xs
      → s.heap p ≡ none
      → Extended s p e xs r t
      → Owns t (insert (p, e) xs)
  Extended-Owns {s} {t} {p} {e} {xs} o unused x =
      let out : has p xs ≡ false = not-has_of_none p o.timer.list.chain unused in
      record {
        timer = x.timer;
        kept = λ q apart.
            let apart' : ((q == p) || has q xs) ≡ false = sym (has-insert q p e xs) ∙ apart in
            x.same q apart' ∙ o.kept q (ground (arith, apart'));
        own = λ q among.
            let among' : ((q == p) || has q xs) ≡ true = sym (has-insert q p e xs) ∙ among in
            elim (Bool-cases (q == p)) [
              | inl here ↦
                  let here' : q ≡ p = ground (arith, here) in
                  ap h₀ here' ∙ sym (o.kept p out) ∙ unused
              | inr other ↦ o.own q (ground (arith, among', other))
            ];
      }

  pub Removed-Owns :
      {s t : State Event E} {func ctx : ℕ} {xs : Cells Event} {r : _}
      → Owns s xs
      → Removed func ctx s xs r t
      → Owns t (erase (matches func ctx) xs)
  Removed-Owns {s} {t} {func} {ctx} {xs} o x =
      let f = matches func ctx in
      record {
        timer = x.timer;
        kept = λ q apart. elim (Bool-cases (has q xs)) [
          | inl inside ↦
              ap t.heap (has-erase f q xs inside apart) ∙ (x.freed ∙ sym (o.own q inside))
          | inr outside ↦ x.same q outside ∙ o.kept q outside
        ];
        own = λ q among. elim (Bool-cases (has q xs)) [
          | inl inside ↦ o.own q inside
          | inr outside ↦ absurd (ground (arith, not-has-erase f q xs outside, among))
        ];
      }

  pub Fired-Owns :
      {s t : State Event E} {now : Timeval} {act : ℕ → ℕ → E → E} {xs : Cells Event}
      → Owns s xs
      → Fired now act s xs t
      → Owns t (pending now xs)
  Fired-Owns {s} {t} {now} {act} {xs} o x = record {
    timer = record {
      list = x.list;
      ordered = pending-IsOrdered now xs o.timer.ordered;
      distinct = pending-IsDistinct now xs o.timer.distinct;
    };
    kept = λ q apart. elim (Bool-cases (has q (expired now xs))) [
      | inl fired ↦ x.freed q fired ∙ sym (o.own q (ground (arith, has-expired now q xs, fired)))
      | inr not_fired ↦
          x.same q not_fired ∙ o.kept q (ground (arith, has-expired now q xs, not_fired, apart))
    ];
    own = λ q among. o.own q (ground (arith, has-expired now q xs, among));
  }
