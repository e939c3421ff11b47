-- ===== src/Crash/Signals.antt =====
-- The actions for signals, as `sigaction` sets them.
use libmisc.Base.{
  ℕ, ◌≡◌, refl, inl, inr, Bool, true, false, ◌||◌, List, [], ◌∷◌, ◌==◌, if◌then◌else◌, Bool-cases,
}

-- `SIG_DFL`, `SIG_IGN`, `crash_handler`, and a function of the program.
pub data Action : Type 0 where
  default_action ignored crash_action program_action : Action

abbrev pub Actions : Type 0
Actions = ℕ → Action

unfoldable pub set_action : ℕ → Action → Actions → Actions
set_action n a t s = if s == n then a else t s

-- The same action for some signals, one after the other.
unfoldable pub set_actions : List ℕ → Action → Actions → Actions
unfolding set_action
set_actions [] a t = t
set_actions (n ∷ ns) a t = set_actions ns a (set_action n a t)

unfoldable pub among : ℕ → List ℕ → Bool
among s [] = false
among s (n ∷ ns) = s == n || among s ns

pub set_actions-among :
    (ns : List ℕ) (a : Action) (t : Actions) (s : ℕ)
    → set_actions ns a t s ≡ (if among s ns then a else t s)
unfolding set_actions among
set_actions-among [] a t s = refl
set_actions-among (n ∷ ns) a t s = elim (Bool-cases (s == n)) [
  | inl here ↦
      rw (here, set_actions-among ns a (set_action n a t) s, set_action, here) (same (among s ns))
  | inr other ↦ rw (other, set_actions-among ns a (set_action n a t) s, set_action, other) refl
]
  where
    same : (b : Bool) → (if b then a else a) ≡ a
    same true = refl
    same false = refl
