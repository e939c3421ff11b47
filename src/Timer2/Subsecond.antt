-- ===== src/Timer2/Subsecond.antt =====
-- Events of misc_timer2.c with an interval of less than a second, in calls of mTimer_executeExpireEvents.
use mathlib.Core.Path.{subst}
use libmisc.Base.{
  inl, inr, Bool-cases, ℕ, zero, suc, ◌<◌, ◌≤◌, ◌≡◌, refl, sym, ◌∙◌, false, List, [], ◌∷◌, arith,
  length,
}
use libmisc.Base.Int.{pos, ltb_ℤ}
use libmisc.Store.{State, Cmd, ok}
use libmisc.Store.Yields
use libmisc.Store.Yields.{Yields}
use libmisc.Store.Chain.{Cells}
use libmisc.Time.{Timeval}
use libmisc.EventList.Find.{IsEventList, contains}
use libmisc.Timer2.{Event}
use libmisc.Timer2.Execute.{is_due, tick, run_due}
use libmisc.Timer2.Lifetime.{rounds, is_used_up, ticks, run_rounds, rounds_return}
use libmisc.Timer2.Aged.{
  InRange, HasRoom, aged-InRange, IsHot, aged, is_due-IsHot, aged_zero, aged-ticked, ticked-IsHot,
}

pub aged_all : ℕ → Cells Event → Cells Event
aged_all k [] = []
aged_all k ((p, e) ∷ xs) = (p, aged k e) ∷ aged_all k xs

-- The event functions of all the events, so many times over.
pub run_all : {E : Type 0} → (ℕ → ℕ → E → E) → Cells Event → E → E
run_all act [] env = env
run_all act ((_, e) ∷ xs) env = run_all act xs (act e.func e.ctx_arg env)

pub run_repeated : {E : Type 0} → (ℕ → ℕ → E → E) → ℕ → Cells Event → E → E
run_repeated act zero xs env = env
run_repeated act (suc k) xs env = run_repeated act k xs (run_all act xs env)

-- All the events are hot.
abbrev pub AllHot : List Timeval → Cells Event → Type 0
AllHot times [] = Unit {0}
AllHot times ((p, e) ∷ xs) = IsHot times e × AllHot times xs

tick-AllHot :
    (now : Timeval) (times : List Timeval) (xs : Cells Event)
    → AllHot (now ∷ times) xs
    → AllHot times (tick now xs)
unfolding tick
tick-AllHot now times [] h = tt
tick-AllHot now times ((p, e) ∷ xs) h =
    rw (is_due-IsHot now times e h.0) (ticked-IsHot now times e h.0, tick-AllHot now times xs h.1)

-- No event is used up.
used_up-AllHot :
    (times : List Timeval) (xs : Cells Event)
    → AllHot times xs
    → contains (is_used_up times) xs ≡ false
unfolding contains
used_up-AllHot times [] h = refl
used_up-AllHot times ((p, e) ∷ xs) h =
    let counts : ltb_ℤ (pos 0) e.count ≡ false = ground (arith, h.0.forever) in
    rw counts (used_up-AllHot times xs h.1)

aged_all_zero : (xs : Cells Event) → aged_all 0 xs ≡ xs
unfolding aged_all
aged_all_zero [] = refl
aged_all_zero ((p, e) ∷ xs) = λ i. (p, aged_zero e i) ∷ aged_all_zero xs i

aged_all-tick :
    (k : ℕ) (now : Timeval) (times : List Timeval) (xs : Cells Event)
    → AllHot (now ∷ times) xs
    → aged_all k (tick now xs) ≡ aged_all (suc k) xs
unfolding aged_all tick
aged_all-tick k now times [] h = refl
aged_all-tick k now times ((p, e) ∷ xs) h =
    rw (is_due-IsHot now times e h.0) (λ i.
      (p, aged-ticked k h.0.n e h.0.short h.0.interval i) ∷ aged_all-tick k now times xs h.1 i)

ticks-aged :
    (times : List Timeval) (xs : Cells Event)
    → AllHot times xs
    → ticks times xs ≡ aged_all (length times) xs
unfolding ticks
ticks-aged [] xs h = sym (aged_all_zero xs)
ticks-aged (now ∷ times) xs h =
    ticks-aged times (tick now xs) (tick-AllHot now times xs h)
    ∙ aged_all-tick (length times) now times xs h

abbrev pub AllRoom : ℕ → Cells Event → Type 0
AllRoom k [] = Unit {0}
AllRoom k ((p, e) ∷ xs) = HasRoom k e × AllRoom k xs

abbrev pub AllInRange : Cells Event → Type 0
AllInRange [] = Unit {0}
AllInRange ((p, e) ∷ xs) = InRange e × AllInRange xs

aged_all-AllInRange :
    (times : List Timeval) (j k : ℕ) (xs : Cells Event)
    → AllHot times xs
    → AllRoom k xs
    → j ≤ k
    → AllInRange (aged_all j xs)
unfolding aged_all
aged_all-AllInRange times j k [] h room few = tt
aged_all-AllInRange times j k ((p, e) ∷ xs) h room few =
    (aged-InRange times j k e h.0 room.0 few, aged_all-AllInRange times j k xs h.1 room.1 few)

module _ {E : Type 0} (act : ℕ → ℕ → E → E) where
  run_due-run_all :
      (now : Timeval) (times : List Timeval) (xs : Cells Event) (env : E)
      → AllHot (now ∷ times) xs
      → run_due act now xs env ≡ run_all act xs env
  unfolding run_due run_all
  run_due-run_all now times [] env h = refl
  run_due-run_all now times ((p, e) ∷ xs) env h =
      rw (is_due-IsHot now times e h.0)
        (run_due-run_all now times xs (act e.func e.ctx_arg env) h.1)

  run_all-tick :
      (now : Timeval) (xs : Cells Event) (env : E)
      → run_all act (tick now xs) env ≡ run_all act xs env
  unfolding run_all tick
  run_all-tick now [] env = refl
  run_all-tick now ((p, e) ∷ xs) env = elim (Bool-cases (is_due now e)) [
    | inl due ↦ rw due (run_all-tick now xs (act e.func e.ctx_arg env))
    | inr waits ↦ rw waits (run_all-tick now xs (act e.func e.ctx_arg env))
  ]

  run_repeated-tick :
      (k : ℕ) (now : Timeval) (xs : Cells Event) (env : E)
      → run_repeated act k (tick now xs) env ≡ run_repeated act k xs env
  unfolding run_repeated
  run_repeated-tick zero now xs env = refl
  run_repeated-tick (suc k) now xs env =
      rw (run_all-tick now xs env) (run_repeated-tick k now xs (run_all act xs env))

  run_rounds-repeated :
      (times : List Timeval) (xs : Cells Event) (env : E)
      → AllHot times xs
      → run_rounds act times xs env ≡ run_repeated act (length times) xs env
  unfolding run_rounds run_repeated
  run_rounds-repeated [] xs env h = refl
  run_rounds-repeated (now ∷ times) xs env h = rw (run_due-run_all now times xs env h) (
      run_rounds-repeated times (tick now xs) (run_all act xs env) (tick-AllHot now times xs h)
      ∙ run_repeated-tick (length times) now xs (run_all act xs env))

  -- The outcome of the rounds: all of the events were executed in each of them, the seconds of their
  -- last executions have not moved, and their microseconds and counts were in range all along.
  pub record EachRound (k : ℕ) (s : State Event E) (xs : Cells Event) (t : State Event E)
      : Type 0 where
    pub list : IsEventList t (aged_all k xs)
    pub env : t.env ≡ run_repeated act k xs s.env
    pub in_range : (j : ℕ) → j ≤ k → AllInRange (aged_all j xs)

  -- Events with an interval of less than a second and a count that is not positive are executed in every
  -- round of `mTimer_executeExpireEvents` from the second of their last execution on, however often
  -- it is called within a second; each execution adds the interval to the microseconds of their last
  -- execution, which are never carried into its seconds. The event functions leave the timer alone; and
  -- there are no more rounds than the microseconds and the counts have room for in 32 bits: they
  -- stay in range all along.
  pub rounds-EachRound :
      (callback : ℕ → ℕ → Cmd (State Event E) (Unit {0}))
      → ((func ctx : ℕ) (s : State Event E)
          → callback func ctx s ≡ ok tt (record s { env = act func ctx s.env }))
      → (times : List Timeval) (fuel : ℕ) (s : State Event E) (xs : Cells Event) → IsEventList s xs
      → AllHot times xs
      → AllRoom (length times) xs
      → length xs < fuel
      → Yields (λ _. EachRound (length times) s xs) (rounds callback fuel times s)
  rounds-EachRound callback acts times fuel s xs is hot room more =
      Yields.weaken
        (rounds_return act callback acts times fuel s xs is (used_up-AllHot times xs hot) more)
        λ _ t k. record {
          list = subst (IsEventList t) (ticks-aged times xs hot) k.list;
          env = k.env ∙ run_rounds-repeated times xs s.env hot;
          in_range = λ j few. aged_all-AllInRange times j (length times) xs hot room few;
        }
