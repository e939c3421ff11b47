-- ===== src/Timer/Program/Spec.antt =====
-- What a timer is for its user: a list of events, the earliest first, no memory.
use libmisc.Base.{
  ℕ, ◌≤◌, length, ◌≡◌, Bool, true, false, not, ◌||◌, Option, none, some, List, [], ◌∷◌,
  if◌then◌else◌,
}
use libmisc.Base.Int.{ℤ, pos, minus_one}
use libmisc.Base.Text.{Text}
use libmisc.Time.{Timeval, is_earlier_than}
use libmisc.Timer.{Event, matches, new_event}
use libmisc.Timer.Insert.{earlier}
use libmisc.Timer.Program.{Call, add, remove, execute}

-- Some event passes the test; and those that do.
unfoldable pub any : (Event → Bool) → List Event → Bool
any f [] = false
any f (e ∷ es) = f e || any f es

unfoldable pub keep : (Event → Bool) → List Event → List Event
keep f [] = []
keep f (e ∷ es) = if f e then e ∷ keep f es else keep f es

-- Behind all that are not later.
unfoldable pub insert_event : Event → List Event → List Event
insert_event e [] = e ∷ []
insert_event e (a ∷ es) = if earlier e a then e ∷ a ∷ es else a ∷ insert_event e es

abbrev pub is_expired : Timeval → Event → Bool
is_expired now e = is_earlier_than e.expire now

abbrev pub is_empty : List Event → Bool
is_empty [] = true
is_empty (e ∷ es) = false

-- The event functions of some events, one after the other.
unfoldable pub act_all : {E : Type 0} → (ℕ → ℕ → E → E) → List Event → E → E
act_all act [] env = env
act_all act (e ∷ es) env = act_all act es (act e.func e.ctx_data env)

-- `act` is what the event functions do; memory is short from `room` events on, at the earliest.
module _ {E : Type 0} (room : ℕ) (act : ℕ → ℕ → E → E) where
  -- A call takes the events and the data to others, with an answer. Where no name is given, the new
  -- event has that of some event `old`.
  pub data Step : Call → List Event → E → Option ℤ → List Event → E → Type 0 where
    added :
        (now : Timeval) (func ctx : ℕ) (ms : ℤ) (name : Option Text) (es : List Event) (env : E)
        (old : Event)
        → any (matches func ctx) es ≡ false
        → Step
            (add now func ctx ms name)
            es
            env
            (some (pos 0))
            (insert_event (new_event now func ctx ms name old) es)
            env
    refused :
        (now : Timeval) (func ctx : ℕ) (ms : ℤ) (name : Option Text) (es : List Event) (env : E)
        → any (matches func ctx) es ≡ true
        → Step (add now func ctx ms name) es env (some minus_one) es env
    exhausted :
        (now : Timeval) (func ctx : ℕ) (ms : ℤ) (name : Option Text) (es : List Event) (env : E)
        → room ≤ length es
        → Step (add now func ctx ms name) es env (some minus_one) es env
    removed :
        (func ctx : ℕ) (es : List Event) (env : E)
        → any (matches func ctx) es ≡ true
        → Step (remove func ctx) es env (some (pos 0)) (keep (λ e. not (matches func ctx e)) es) env
    missed :
        (func ctx : ℕ) (es : List Event) (env : E)
        → any (matches func ctx) es ≡ false
        → Step (remove func ctx) es env (some (if is_empty es then minus_one else pos 0)) es env
    executed :
        (now : Timeval) (es : List Event) (env : E)
        → Step
            (execute now)
            es
            env
            none
            (keep (λ e. not (is_expired now e)) es)
            (act_all act (keep (is_expired now) es) env)

  pub data Steps : List Call → List Event → E → List (Option ℤ) → List Event → E → Type 0 where
    done : (es : List Event) (env : E) → Steps [] es env [] es env
    step :
        {c : Call} {cs : List Call} {es fs gs : List Event} {env env' env'' : E} {a : Option ℤ}
        {as' : List (Option ℤ)}
        → Step c es env a fs env'
        → Steps cs fs env' as' gs env''
        → Steps (c ∷ cs) es env (a ∷ as') gs env''
