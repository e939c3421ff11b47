-- ===== src/Timer2/Lifetime.antt =====
-- How long the events of misc_timer2.c live: any number of rounds, with any counts.
use libmisc.Base.{
  ℕ, suc, ◌<◌, ◌≡◌, refl, ap, ◌∙◌, inl, inr, Bool, true, false, ◌&&◌, ◌||◌, List, [], ◌∷◌, arith,
  if◌then◌else◌, Bool-cases, length,
}
use libmisc.Base.Int.{pos, leb_ℤ, ltb_ℤ, -ℤ_parts}
use libmisc.Store.{State, Run, Cmd, ok, fault, pure, ◌>>◌}
use libmisc.Store.Yields
use libmisc.Store.Yields.{Yields, yields}
use libmisc.Store.Chain.{Cells}
use libmisc.Time.{Timeval}
use libmisc.EventList.Find.{IsEventList, contains}
use libmisc.Timer2.{Event, matches, execute_expire_events}
use libmisc.Timer2.Execute.{
  is_due, is_last, ticked, tick, run_due, length-tick, execute_expire_events-Ticked,
}
use libmisc.Timer2.Fault.{IsApart, IsDistinct, execute_expire_events_last}

-- One call of `mTimer_executeExpireEvents` at each of the times.
unfoldable pub rounds :
    {E : Type 0}
    → (ℕ → ℕ → Cmd (State Event E) (Unit {0}))
    → ℕ
    → List Timeval
    → Cmd (State Event E) (Unit {0})
rounds callback fuel [] = pure tt
rounds callback fuel (now ∷ times) =
    execute_expire_events callback fuel now >> rounds callback fuel times

-- The number of rounds at the times in which the event is executed.
unfoldable pub executions : List Timeval → Event → ℕ
executions [] e = 0
executions (now ∷ times) e =
    if is_due now e then suc (executions times (ticked e)) else executions times e

-- The rounds execute the event as often as its count, which is positive, says.
abbrev pub is_used_up : List Timeval → Event → Bool
is_used_up times e = ltb_ℤ (pos 0) e.count && leb_ℤ e.count (pos (executions times e))

-- The list, and the data of the program, behind rounds in which no event is used up.
unfoldable pub ticks : List Timeval → Cells Event → Cells Event
ticks [] xs = xs
ticks (now ∷ times) xs = ticks times (tick now xs)

unfoldable pub run_rounds : {E : Type 0} → (ℕ → ℕ → E → E) → List Timeval → Cells Event → E → E
run_rounds act [] xs env = env
run_rounds act (now ∷ times) xs env = run_rounds act times (tick now xs) (run_due act now xs env)

is_used_up-step :
    (now : Timeval) (times : List Timeval) (e : Event)
    → is_used_up (now ∷ times) e
      ≡ (is_last now e || is_used_up times (if is_due now e then ticked e else e))
unfolding executions
is_used_up-step now times e = elim (Bool-cases (is_due now e)) [
  | inl due ↦ rw due (ground (arith, -ℤ_parts e.count (pos 1)))
  | inr waits ↦ rw waits refl
]

-- An event is used up in the first round or in a later one.
contains-used_up :
    (now : Timeval) (times : List Timeval) (xs : Cells Event)
    → contains (is_used_up (now ∷ times)) xs
      ≡ (contains (is_last now) xs || contains (is_used_up times) (tick now xs))
unfolding contains tick
contains-used_up now times [] = refl
contains-used_up now times ((p, e) ∷ xs) =
    ground (arith, is_used_up-step now times e, contains-used_up now times xs)

none_used_up : (xs : Cells Event) → contains (is_used_up []) xs ≡ false
unfolding contains executions
none_used_up [] = refl
none_used_up ((p, e) ∷ xs) = ground (arith, none_used_up xs)

-- A round keeps the functions and the data.
tick-keys :
    (now : Timeval) (f c : ℕ) (xs : Cells Event)
    → contains (matches f c) (tick now xs) ≡ contains (matches f c) xs
unfolding contains tick
tick-keys now f c [] = refl
tick-keys now f c ((p, e) ∷ xs) = elim (Bool-cases (is_due now e)) [
  | inl due ↦ rw (due, tick-keys now f c xs) refl
  | inr waits ↦ rw (waits, tick-keys now f c xs) refl
]

pub tick-IsApart :
    (now : Timeval) (ys zs xs : Cells Event)
    → ((f c : ℕ) → contains (matches f c) zs ≡ contains (matches f c) ys)
    → IsApart ys xs
    → IsApart zs (tick now xs)
unfolding tick contains
tick-IsApart now ys zs [] same h = tt
tick-IsApart now ys zs ((p, e) ∷ xs) same h = elim (Bool-cases (is_due now e)) [
  | inl due ↦ rw due (
    same e.func e.ctx_arg ∙ h.0,
    tick-IsApart now ((p, e) ∷ ys) ((p, ticked e) ∷ zs) xs
        (λ f c. ap (λ b. matches f c e || b) (same f c)) h.1,
  )
  | inr waits ↦ rw waits (
    same e.func e.ctx_arg ∙ h.0,
    tick-IsApart now ((p, e) ∷ ys) ((p, e) ∷ zs) xs (λ f c. ap (λ b. matches f c e || b) (same f c))
        h.1,
  )
]

module _ {E : Type 0} (act : ℕ → ℕ → E → E) where
  -- The outcome of rounds that return.
  pub record Kept (times : List Timeval) (s : State Event E) (xs : Cells Event) (t : State Event E)
      : Type 0 where
    pub list : IsEventList t (ticks times xs)
    pub env : t.env ≡ run_rounds act times xs s.env

  -- The rounds return, or end in an access to freed memory, as the flag says.
  pub data Lives (times : List Timeval) (s : State Event E) (xs : Cells Event)
      : Bool → Run (State Event E) (Unit {0}) → Type 0 where
    keeps : {t : State Event E} → Kept times s xs t → Lives times s xs false (ok tt t)
    faults : Lives times s xs true fault

  module _ (callback : ℕ → ℕ → Cmd (State Event E) (Unit {0}))
      (acts : (func ctx : ℕ) (s : State Event E)
        → callback func ctx s ≡ ok tt (record s { env = act func ctx s.env })) where
    pub rounds_return :
        (times : List Timeval) (fuel : ℕ) (s : State Event E) (xs : Cells Event)
        → IsEventList s xs
        → contains (is_used_up times) xs ≡ false
        → length xs < fuel
        → Yields (λ _. Kept times s xs) (rounds callback fuel times s)
    unfolding rounds ticks run_rounds
    rounds_return [] fuel s xs is h more = yields (record { list = is; env = refl })
    rounds_return (now ∷ times) fuel s xs is h more =
        let split = contains-used_up now times xs in
        Yields.bind
          (execute_expire_events-Ticked now act callback acts fuel s is (ground (arith, h, split))
            more)
          λ _ t r.
            Yields.weaken
              (rounds_return times fuel t (tick now xs) r.list (ground (arith, h, split))
                (omega (arith, length-tick now xs)))
              λ _ u k. record {
                list = k.list;
                env = k.env ∙ ap (λ e. run_rounds act times (tick now xs) e) r.env;
              }

    rounds_fault :
        (times : List Timeval) (fuel : ℕ) (s : State Event E) (xs : Cells Event)
        → IsEventList s xs
        → IsDistinct xs
        → contains (is_used_up times) xs ≡ true
        → length xs < fuel
        → rounds callback fuel times s ≡ fault
    unfolding rounds
    rounds_fault [] fuel s xs is apart h more = absurd (ground (arith, h, none_used_up xs))
    rounds_fault (now ∷ times) fuel s xs is apart h more =
        let split = contains-used_up now times xs in
        elim (Bool-cases (contains (is_last now) xs)) [
          | inl last ↦
              rw (execute_expire_events_last now act callback acts fuel s is apart last more) refl
          | inr counting ↦
              Yields.bind_fault
                (execute_expire_events-Ticked now act callback acts fuel s is counting more)
                λ _ t r.
                  rounds_fault times fuel t (tick now xs) r.list
                    (tick-IsApart now [] [] xs (λ f c. refl) apart)
                    (ground (arith, h, split, counting)) (omega (arith, length-tick now xs))
        ]

    -- Any rounds of `mTimer_executeExpireEvents` over events that differ in function or data, with event
    -- functions that leave the timer alone: if none is executed as often as its positive count says, the
    -- rounds return, every event is still in the list with its count and time advanced once for each of its
    -- executions, and these ran in order; otherwise the rounds end in an access to freed memory.
    pub rounds-Lives :
        (times : List Timeval) (fuel : ℕ) (s : State Event E) (xs : Cells Event)
        → IsEventList s xs
        → IsDistinct xs
        → length xs < fuel
        → Lives times s xs (contains (is_used_up times) xs) (rounds callback fuel times s)
    rounds-Lives times fuel s xs is apart more =
        elim (Bool-cases (contains (is_used_up times) xs)) [
          | inl used ↦ rw (used, rounds_fault times fuel s xs is apart used more) faults
          | inr left ↦ rw left (go (rounds_return times fuel s xs is left more))
        ]
      where
        go :
            {r : Run (State Event E) (Unit {0})}
            → Yields (λ _. Kept times s xs) r
            → Lives times s xs false r
        go (yields {a = tt} k) = keeps k
