-- ===== src/Timer/Program/Dangles.antt =====
-- A program in which `timer_event_add` links a first event to what its block from `malloc` held before.
use libmisc.Base.{
  ℕ, ◌≡◌, ◌≢◌, refl, ap, ◌∙◌, sym, inl, inr, ◌⊎◌, Option, some, List, [], ◌∷◌, ◌==◌, Bool-cases,
  Option-cases, arith, length,
}
use libmisc.Base.Int.{ℤ}
use libmisc.Base.Text.{Text}
use mathlib.Core.Option.{some-injective, none-ne-some}
use libmisc.Store.{Ptr, null, Node, Heap, State}
use libmisc.Store.Chain.{Cells}
use libmisc.Time.{Timeval}
use libmisc.Timer.{Event}
use libmisc.Timer.Program.{Call, add, remove, execute}
use libmisc.Timer.Program.Spec.{Step}
use libmisc.Timer.Program.Events.{events}
use libmisc.Timer.Program.Owns.{Owns}

module _ {E : Type 0} (h₀ : Heap Event) (room : ℕ) (act : ℕ → ℕ → E → E)
    (malloc : Heap Event → Option (Ptr × Node Event)) where
  -- Some calls do what steps say, up to one of `timer_event_add` without any events: `malloc` gives it a
  -- block whose link is not NULL, with the memory of before `timer_init`.
  pub data Dangles : List Call → List Event → E → Type 0 where
    first :
        (now : Timeval) (func ctx : ℕ) (ms : ℤ) (name : Option Text) (cs : List Call) (env : E)
        (h : Heap Event) (b : Ptr × Node Event)
        → ((p : Ptr) → h p ≡ h₀ p)
        → malloc h ≡ some b
        → b.1.next ≢ null
        → Dangles (add now func ctx ms name ∷ cs) [] env
    later :
        {c : Call} {cs : List Call} {es fs : List Event} {env env' : E} {a : Option ℤ}
        → Step room act c es env a fs env'
        → Dangles cs fs env'
        → Dangles (c ∷ cs) es env

  -- The block for a first event has no link.
  abbrev pub IsClean : Call → State Event E → Cells Event → Type 0
  IsClean (add now func ctx ms name) s xs =
      (b : Ptr × Node Event) → malloc s.heap ≡ some b → xs ≡ [] → b.1.next ≡ null
  IsClean (remove func ctx) s xs = Unit {0}
  IsClean (execute now) s xs = Unit {0}

  pub block_cases :
      (c : Call) (cs : List Call) (s : State Event E) (xs : Cells Event)
      → Owns h₀ s xs
      → IsClean c s xs ⊎ Dangles (c ∷ cs) (events xs) s.env
  unfolding events
  block_cases (remove func ctx) cs s xs o = inl tt
  block_cases (execute now) cs s xs o = inl tt
  block_cases (add now func ctx ms name) cs s (x ∷ xs) o =
      inl (λ b given empty. absurd (omega (arith, ap length empty)))
  block_cases (add now func ctx ms name) cs s [] o = elim (Option-cases (malloc s.heap)) [
    | inl failed ↦ inl (λ b given empty. absurd (none-ne-some b (sym failed ∙ given)))
    | inr (b, given) ↦ elim (Bool-cases (b.1.next == null)) [
      | inl cleared ↦ inl (λ b' given' empty.
          ap (λ x. x.1.next) (some-injective b' b (sym given' ∙ given)) ∙ ground (arith, cleared))
      | inr linked ↦ inr (
          first now func ctx ms name cs s.env s.heap b (λ p. o.kept p refl) given
            (ground (arith, linked)))
    ]
  ]
