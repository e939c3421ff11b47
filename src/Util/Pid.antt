-- ===== src/Util/Pid.antt =====
-- `misc_procEp`: one process for a pid file. The pid file is what it holds, if it can be read.
use libmisc.Base.{
  ℕ, ◌<◌, ◌^◌, ◌≡◌, refl, Bool, true, ◌||◌, Option, none, some, ◌==◌, if◌then◌else◌, arith,
}
use libmisc.Base.Int.{ℤ, pos, minus_one, eqb_ℤ}
use libmisc.Base.Text.{Text, decimal}
use libmisc.Base.Text.Scan.{scan_int, scan_int-decimal}

-- `pid` behind the first part.
unfoldable pub recorded_pid : Option Text → ℤ
recorded_pid none = minus_one
recorded_pid (some text) = elim (scan_int text) [ none ↦ minus_one | some n ↦ n ]

-- `misc_procEp` of the process `self`: the process that gets SIGTERM, and the pid file behind the call.
unfoldable pub proc_ep : Option Text → Bool → ℕ → Option ℤ × Option Text
unfolding recorded_pid
proc_ep file writable self =
    let pid = recorded_pid file in
    (
      if eqb_ℤ pid minus_one || eqb_ℤ pid (pos self) then none else some pid,
      if writable then some (decimal self) else file,
    )

recorded_pid-decimal : (n : ℕ) → n < 10 ^ 10 → recorded_pid (some (decimal n)) ≡ pos n
unfolding recorded_pid
recorded_pid-decimal n h = rw (recorded_pid, scan_int-decimal n h) refl

-- Where a process could write its pid, another process that calls `misc_procEp` next sends SIGTERM to
-- exactly it, and the same process sends none; a pid fits an `int`.
pub proc_ep-again :
    (file : Option Text) (writable : Bool) (first second : ℕ)
    → first < 2 ^ 31
    → (proc_ep (proc_ep file true first).1 writable second).0
      ≡ (if first == second then none else some (pos first))
unfolding proc_ep
proc_ep-again file writable first second h =
    rw (recorded_pid-decimal first (omega (arith, h))) (same first second)
  where
    same :
        (a b : ℕ)
        → (if eqb_ℤ (pos a) minus_one || eqb_ℤ (pos a) (pos b) then none else some (pos a))
          ≡ (if a == b then none else some (pos a))
    same a b = ground arith
