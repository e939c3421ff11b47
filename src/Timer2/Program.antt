-- ===== src/Timer2/Program.antt =====
-- A program that uses a timer of misc_timer2.c: `mTimer_init`, calls of `mTimer_add`, `mTimer_delete` and
-- `mTimer_executeExpireEvents`, and `mTimer_cleanup`. `malloc` is a function of the memory.
pub mod Keys
pub mod Owns
pub mod Dangles
pub mod Runs
mod Tests
use libmisc.Base.{
  ℕ, ◌≤◌, ◌≡◌, ◌≢◌, Bool, true, false, Option, none, some, List, [], ◌∷◌, length, if◌then◌else◌,
  ◌==◌,
}
use libmisc.Base.Int.{ℤ, pos, minus_one}
use libmisc.Base.Text.{Text}
use libmisc.Store.{Ptr, null, Node, Heap, State, Cmd, pure, ◌>>=◌, ◌>>◌}
use libmisc.Store.Chain.{Cells, SameOutside}
use libmisc.Time.{Timeval}
use libmisc.EventList.Find.{contains}
use libmisc.EventList.Unlink.{erase}
use libmisc.Timer2.{Event, matches, new_event, delete, cleanup, execute_expire_events}
use libmisc.Timer2 as Timer2
use libmisc.Timer2.Execute.{is_last, tick, run_due}

-- A call, with the time of its moment.
pub data Call : Type 0 where
  add : Timeval → ℕ → ℕ → ℤ → ℤ → Option Text → Call
  remove : ℕ → ℕ → Call
  execute : Timeval → Call

module _ {E : Type 0} (malloc : Heap Event → Option (Ptr × Node Event))
    (callback : ℕ → ℕ → Cmd (State Event E) (Unit {0})) (k : ℕ) where
  -- The call, and what it returns.
  unfoldable pub perform : Call → Cmd (State Event E) (Option ℤ)
  perform (add now func ctx interval count name) s =
      (Timer2.add k now (malloc s.heap) func ctx interval count name >>= λ r. pure (some r)) s
  perform (remove func ctx) s = (delete k func ctx >>= λ r. pure (some r)) s
  perform (execute now) s = (execute_expire_events callback k now >> pure none) s

  -- The calls behind `mTimer_init`, and `mTimer_cleanup`.
  unfoldable pub program : List Call → Cmd (State Event E) (List (Option ℤ))
  unfolding perform
  program [] = cleanup k >> pure []
  program (c ∷ cs) = do answer ← perform c; answers ← program cs; pure (answer ∷ answers)

-- `malloc` gives blocks that are not in use, with any contents, and does not fail with less than `room`
-- events beside the memory `h₀`.
pub record IsMalloc (h₀ : Heap Event) (room : ℕ) (malloc : Heap Event → Option (Ptr × Node Event))
    : Type 0 where
  pub ne_null : (h : Heap Event) (b : Ptr × Node Event) → malloc h ≡ some b → b.0 ≢ null
  pub unused : (h : Heap Event) (b : Ptr × Node Event) → malloc h ≡ some b → h b.0 ≡ none
  pub lasts :
      (h : Heap Event) (xs : Cells Event) → SameOutside xs h₀ h → malloc h ≡ none → room ≤ length xs

module _ {E : Type 0} (room : ℕ) (act : ℕ → ℕ → E → E) where
  -- A call takes the events, the newest first, and the data to others, with an answer.
  pub data Step : Call → Cells Event → E → Option ℤ → Cells Event → E → Type 0 where
    added :
        (now : Timeval) (func ctx : ℕ) (interval count : ℤ) (name : Option Text) (xs : Cells Event)
        (env : E) (p : Ptr) (old : Event)
        → contains (matches func ctx) xs ≡ false
        → Step
            (add now func ctx interval count name)
            xs
            env
            (some (pos 0))
            ((p, new_event now func ctx interval count name old) ∷ xs)
            env
    refused :
        (now : Timeval) (func ctx : ℕ) (interval count : ℤ) (name : Option Text) (xs : Cells Event)
        (env : E)
        → contains (matches func ctx) xs ≡ true
        → Step (add now func ctx interval count name) xs env (some minus_one) xs env
    exhausted :
        (now : Timeval) (func ctx : ℕ) (interval count : ℤ) (name : Option Text) (xs : Cells Event)
        (env : E)
        → room ≤ length xs
        → Step (add now func ctx interval count name) xs env (some minus_one) xs env
    removed :
        (func ctx : ℕ) (xs : Cells Event) (env : E)
        → contains (matches func ctx) xs ≡ true
        → Step (remove func ctx) xs env (some (pos 0)) (erase (matches func ctx) xs) env
    missed :
        (func ctx : ℕ) (xs : Cells Event) (env : E)
        → contains (matches func ctx) xs ≡ false
        → Step (remove func ctx) xs env (some (if length xs == 0 then minus_one else pos 0)) xs env
    executed :
        (now : Timeval) (xs : Cells Event) (env : E)
        → contains (is_last now) xs ≡ false
        → Step (execute now) xs env none (tick now xs) (run_due act now xs env)

  -- The calls of a program end with answers and data, or, with `none`, in an access to freed memory.
  pub data Steps : List Call → Cells Event → E → Option (List (Option ℤ) × E) → Type 0 where
    done : (xs : Cells Event) (env : E) → Steps [] xs env (some ([], env))
    used_up :
        (now : Timeval) (cs : List Call) (xs : Cells Event) (env : E)
        → contains (is_last now) xs ≡ true
        → Steps (execute now ∷ cs) xs env none
    step :
        {c : Call} {cs : List Call} {xs ys : Cells Event} {env env' env'' : E} {a : Option ℤ}
        {answers : List (Option ℤ)}
        → Step c xs env a ys env'
        → Steps cs ys env' (some (answers, env''))
        → Steps (c ∷ cs) xs env (some (a ∷ answers, env''))
    step_fault :
        {c : Call} {cs : List Call} {xs ys : Cells Event} {env env' : E} {a : Option ℤ}
        → Step c xs env a ys env'
        → Steps cs ys env' none
        → Steps (c ∷ cs) xs env none
