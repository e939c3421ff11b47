-- ===== src/EventList/Delete.antt =====
-- `timer_event_delete` and `mTimer_delete`: an event that is present is unlinked, freed and counted
-- off.
use libmisc.Base.{
  ℕ, suc, ◌<◌, ◌≡◌, refl, sym, ap, ◌∙◌, inl, inr, Bool, true, false, none, ◌∷◌, arith, ◌==◌,
  if◌then◌else◌, Bool-cases, length,
}
use mathlib.Core.Path.{subst}
use libmisc.Base.Int.{ℤ, pos, minus_one, ◌-ℤ◌, pos-sub-one}
use libmisc.Store.{Ptr, null, Heap, State, ok, pure, ◌>>◌, set_next, set_events}
use libmisc.Store.Handle.{get_events-ok, set_events-ok, get_number-ok, set_number-ok}
use libmisc.Store.Yields
use libmisc.Store.Yields.{Yields, yields}
use libmisc.Store.Chain.{
  Cells, Points, Chain, nil, cons, has, SameOutside, not_null, load-ok, set_next-ok, free-ok,
  Points-write, frame-write, write_ne, write_self,
}
use libmisc.EventList.{unlink, drop_unlinked, event_delete}
use libmisc.EventList.Find.{IsEventList, contains, find}
use libmisc.EventList.Unlink.{
  erase, length-erase, Unlinked, unlink_loop-absent, unlink_loop-Unlinked,
}

module _ {A E : Type 0} (matches : A → Bool) where
  -- The event at `r` was unlinked from the list of the handle.
  record Removed (s : State A E) (xs : Cells A) (r : Ptr) (t : State A E) : Type 0 where
    result : r ≡ find matches xs
    unlinked : (a : A) × Points t.heap r a null
    out : has r (erase matches xs) ≡ false
    chain : Chain t.heap t.events (erase matches xs)
    same : SameOutside xs s.heap t.heap
    member : has r xs ≡ true
    live : t.live ≡ s.live
    number : t.number ≡ s.number
    env : t.env ≡ s.env

  Removed-of_Unlinked :
      {s t : State A E} {p : Ptr} {xs : Cells A} {r : Ptr}
      → s.events ≡ p
      → Unlinked matches s p xs r t
      → Removed s xs r t
  Removed-of_Unlinked {t} {xs} first u = record {
    result = u.result;
    unlinked = u.unlinked;
    out = u.out;
    chain = subst (λ q. Chain t.heap q (erase matches xs)) (sym (u.rest.events ∙ first)) u.chain;
    same = u.same;
    member = u.member;
    live = u.rest.live;
    number = u.rest.number;
    env = u.rest.env;
  }

  -- The first event matches.
  unlink_first-Removed :
      (s : State A E) {p q : Ptr} {w : A} {xs : Cells A}
      → s.live ≡ true
      → Points s.heap p w q
      → has p xs ≡ false
      → Chain s.heap q xs
      → matches w ≡ true
      → Yields (Removed s ((p, w) ∷ xs)) ((set_events q >> (set_next p null >> pure p)) s)
  unfolding find erase
  unlink_first-Removed s {p} {q} {w} {xs} live e out c hit =
      rw (set_events-ok s live q, set_next-ok (record s { events = q }) e null)
        (yields (record {
          result = rw hit;
          unlinked = (w, Points-write s.heap null w e.ne_null);
          out = rw hit out;
          chain = rw hit (frame-write p _ c out);
          same = λ r o. write_ne s.heap p r _ (ground arith);
          member = ground arith;
          live = refl;
          number = refl;
          env = refl;
        }))

  unlink-Removed :
      (k : ℕ) (s : State A E) {p : Ptr} {xs : Cells A}
      → s.live ≡ true
      → s.events ≡ p
      → Chain s.heap p xs
      → contains matches xs ≡ true
      → length xs < k
      → Yields (Removed s xs) (unlink k matches p s)
  unfolding unlink contains
  unlink-Removed k s live first nil present fuel = cc
  unlink-Removed k s live first (cons {p} {a = w} {xs} e out c) present fuel =
      rw (load-ok s e) (elim (Bool-cases (matches w)) [
        | inl hit ↦ rw hit (unlink_first-Removed s live e out c hit)
        | inr miss ↦ rw miss (
            Yields.weaken
              (unlink_loop-Unlinked matches k s e miss out c (ground arith) (omega arith))
              λ r t. Removed-of_Unlinked first)
      ])

not_null_of_contains :
    {A : Type 0} (matches : A → Bool) {h : Heap A} {p : Ptr} {xs : Cells A}
    → Chain h p xs
    → contains matches xs ≡ true
    → (p == null) ≡ false
unfolding contains
not_null_of_contains matches nil present = cc
not_null_of_contains matches (cons e out c) present = not_null e

module _ {A E : Type 0} (matches : A → Bool) where
  -- The list lost its first matching event, which was freed, and nothing else changed.
  pub record Deleted (s : State A E) (xs : Cells A) (ret : ℤ) (t : State A E) : Type 0 where
    pub result : ret ≡ pos 0
    pub list : IsEventList t (erase matches xs)
    pub freed : t.heap (find matches xs) ≡ none
    pub same : SameOutside xs s.heap t.heap
    pub env : t.env ≡ s.env

  drop_unlinked-Deleted :
      {s t : State A E} {xs : Cells A} {r : Ptr}
      → IsEventList s xs
      → contains matches xs ≡ true
      → Removed matches s xs r t
      → Yields (Deleted s xs) (drop_unlinked r t)
  unfolding drop_unlinked
  drop_unlinked-Deleted {s} {t} {xs} {r} is present u =
      let (a, e) = u.unlinked in
      let counted : length xs ≡ suc (length (erase matches xs)) =
        ground (arith, length-erase matches xs) in
      let live : t.live ≡ true = u.live ∙ is.live in
      let t' : State A E = record t { number = t.number -ℤ pos 1 } in
      rw (not_null e, get_number-ok t live, set_number-ok t live (t.number -ℤ pos 1), free-ok t' e)
        (yields (record {
          result = refl;
          list = record {
            live = live;
            chain = frame-write r none u.chain u.out;
            number =
                ap (λ n. n -ℤ pos 1) (u.number ∙ is.number ∙ ap pos counted)
                ∙ pos-sub-one (length (erase matches xs));
          };
          freed = rw (← u.result) (write_self t.heap r none);
          same = λ p o. write_ne t.heap r p none (ground (arith, u.member)) ∙ u.same p o;
          env = u.env;
        }))

  -- An event that is present is deleted.
  pub event_delete-Deleted :
      (k : ℕ) (s : State A E) {xs : Cells A}
      → IsEventList s xs
      → contains matches xs ≡ true
      → length xs < k
      → Yields (Deleted s xs) (event_delete k matches s)
  unfolding event_delete
  event_delete-Deleted k s {xs} is present fuel =
      rw (get_events-ok s is.live, not_null_of_contains matches is.chain present)
        (Yields.bind (unlink-Removed matches k s is.live refl is.chain present fuel)
          λ r t. drop_unlinked-Deleted is present)

  unlink-absent :
      (k : ℕ) (s : State A E) {p : Ptr} {xs : Cells A}
      → Chain s.heap p xs
      → (p == null) ≡ false
      → contains matches xs ≡ false
      → length xs < k
      → unlink k matches p s ≡ ok null s
  unfolding unlink contains
  unlink-absent k s nil ne absent fuel = cc
  unlink-absent k s (cons {a = w} e out c) ne absent fuel =
      let miss : matches w ≡ false = ground arith in
      rw (load-ok s e, miss) (unlink_loop-absent matches k s e c (ground arith) (omega arith))

  -- Where no event matches, nothing changes: the result is -1 for the empty list, and 0 otherwise.
  pub event_delete-absent :
      (k : ℕ) (s : State A E) {xs : Cells A}
      → IsEventList s xs
      → contains matches xs ≡ false
      → length xs < k
      → event_delete k matches s ≡ ok (if s.events == null then minus_one else pos 0) s
  unfolding event_delete drop_unlinked
  event_delete-absent k s {xs} is absent fuel =
      rw (get_events-ok s is.live) (elim (Bool-cases (s.events == null)) [
        | inl empty ↦ rw empty
        | inr more ↦ rw (more, unlink-absent k s is.chain more absent fuel)
      ])
