-- ===== src/Timer2/Program/Runs.antt =====
-- What a program with a timer of misc_timer2.c does, and the memory behind it.
use libmisc.Base.{ℕ, suc, ◌≤◌, ◌≡◌, false, Option, none, some, List, ◌∷◌, length}
use libmisc.Base.Int.{ℤ}
use libmisc.Base.Text.{Text}
use libmisc.Store.{Ptr, Node, Heap, State, Run, ok, fault}
use libmisc.Store.Yields.{Yields}
use libmisc.Store.Chain.{Cells}
use libmisc.Timer2.{Event}
use libmisc.Timer2.Program.{Call, Step, Steps}
use libmisc.Timer2.Program.Dangles.{Dangles}
use libmisc.Timer2.Program.Owns.{Owns}

module _ {E : Type 0} (h₀ : Heap Event) (room : ℕ) (act : ℕ → ℕ → E → E) where
  -- The outcome of a call: a well formed timer as a step says, or an access to freed memory.
  data Performed (c : Call) (s : State Event E) (xs : Cells Event)
      : Run (State Event E) (Option ℤ) → Type 0 where
    performs :
        {a : Option ℤ} {t : State Event E} (ys : Cells Event)
        → Owns h₀ t ys
        → Step room act c xs s.env a ys t.env
        → length ys ≤ suc (length xs)
        → Performed c s xs (ok a t)
    crashes : ((cs : List Call) → Steps room act (c ∷ cs) xs s.env none) → Performed c s xs fault

  -- The outcome of a program: it returns answers and data as the steps say, and then the handle is gone and
  -- the memory is that of before `mTimer_init`; or it ends in an access to freed memory, as the steps say;
  -- or its calls do so up to a first event whose block has a link in it.
  pub data Ends (malloc : Heap Event → Option (Ptr × Node Event)) (cs : List Call)
      (xs : Cells Event) (env : E) : Run (State Event E) (List (Option ℤ)) → Type 0 where
    returns :
        {answers : List (Option ℤ)} {t : State Event E}
        → Steps room act cs xs env (some (answers, t.env))
        → t.live ≡ false
        → ((p : Ptr) → t.heap p ≡ h₀ p)
        → Ends malloc cs xs env (ok answers t)
    faults : Steps room act cs xs env none → Ends malloc cs xs env fault
    dangles :
        {r : Run (State Event E) (List (Option ℤ))}
        → Dangles h₀ room act malloc cs xs env
        → Ends malloc cs xs env r
