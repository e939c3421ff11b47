-- ===== src/Timer/Reentry.antt =====
-- An event function may cancel events of the timer that it is called from.
use libmisc.Base.{ℕ, suc, ◌≤◌, ◌<◌, refl, inl, inr, Bool, [], ◌∷◌, arith, Bool-cases, length}
use libmisc.Base.Int.{pos_part}
use libmisc.Store.{State, Cmd, pure, ◌>>◌}
use libmisc.Store.Yields
use libmisc.Store.Yields.{Yields, yields}
use libmisc.Store.Chain.{Cells}
use libmisc.Time.{Timeval}
use libmisc.EventList.Find.{contains}
use libmisc.EventList.Unlink.{erase, not-has-erase}
use libmisc.Timer.{Event, matches, delete}
use libmisc.Timer.Contract.{delete-Removed, delete-absent}
use libmisc.Timer.Execute.{due_count, Behaves}

due_count-erase-le :
    (now : Timeval) (f : Event → Bool) (xs : Cells Event)
    → due_count now (erase f xs) ≤ due_count now xs
unfolding due_count erase
due_count-erase-le now f [] = omega arith
due_count-erase-le now f ((p, e) ∷ xs) = elim (Bool-cases (f e)) [
  | inl hit ↦ rw hit (omega arith)
  | inr miss ↦ rw miss (omega (arith, due_count-erase-le now f xs))
]

-- An event function that cancels the event of another function and data.
unfoldable pub cancel : {E : Type 0} → (ℕ → ℕ → ℕ × ℕ) → ℕ → ℕ → Cmd (State Event E) (Unit {0})
cancel victim func ctx s =
    let (other, data') = victim func ctx in
    (delete (suc (pos_part s.number)) other data' >> pure tt) s

-- Cancelling is what an event function may do, whichever event it cancels.
pub cancel-Behaves :
    {E : Type 0} (now : Timeval) (victim : ℕ → ℕ → ℕ × ℕ) → Behaves {E = E} now (cancel victim)
unfolding cancel
cancel-Behaves now victim func ctx s xs p e is out x =
    let (other, data') = victim func ctx in
    let f = matches other data' in
    let fuel : length xs < suc (pos_part s.number) = ground (arith, is.list.number) in
    elim (Bool-cases (contains f xs)) [
      | inl present ↦
          Yields.bind (delete-Removed (suc (pos_part s.number)) s other data' is fuel present)
            λ r t d. yields (record {
              cells = erase f xs;
              timer = d.timer;
              fewer = due_count-erase-le now f xs;
              apart = not-has-erase f p xs out;
              kept = d.same p out;
            })
      | inr absent ↦ rw (delete-absent (suc (pos_part s.number)) s other data' is fuel absent) (
          yields (record { cells = xs; timer = is; fewer = omega arith; apart = out; kept = refl }))
    ]
