-- ===== src/Oil/Tests.antt =====
-- The theorems at a system that cannot attach what it makes.
use libmisc.Base.{Bool, ℕ, ◌≤◌, ◌≡◌, ◌↔◌, refl, true, false, none, some, List, [], ◌∷◌, ◌++◌, arith}
use libmisc.Base.Int.{pos, minus_one, eqb_ℤ}
use libmisc.Oil.{System, shm_init, failed_addr, uninitialized_shm_id}
use libmisc.Oil.Shared.{IsProper, Unattached, shm_init_unusable}
use libmisc.Oil.Race.{attached, ended, nattch, working, run, removals, replicate}
use libmisc.Oil.Race.Once.{run-removals}
use libmisc.Oil.Race.Leak.{run_leak, run-in_turn, in_turn}

abbrev full_system : System
full_system = record { get = λ size. some (pos 7); attach = λ id. none; attached = λ id. some 0 }

full_system-IsProper : IsProper full_system
full_system-IsProper id addr h = absurd (ground (arith, h))

shm_init_unusable_example :
    ((shm_init full_system 64 minus_one 0).ret ≡ pos 0)
      × ((shm_init full_system 64 minus_one 0).shm_addr ≡ failed_addr)
    ↔ ((eqb_ℤ minus_one uninitialized_shm_id ≡ true) × Unattached full_system 64)
shm_init_unusable_example = shm_init_unusable full_system 64 minus_one 0 full_system-IsProper

-- Three processes that count at once.
all_at_once :
    run (working (0 ∷ 1 ∷ 2 ∷ 0 ∷ 0 ∷ 1 ∷ 1 ∷ 2 ∷ 2 ∷ [])) (replicate 3 attached)
    ≡ replicate 3 (ended false)
unfolding run
all_at_once = refl

-- The second process counts when the first one has detached; the last call of the first one fails.
abbrev one_fails : List (ℕ × Bool)
one_fails = (0, true) ∷ (0, true) ∷ (1, true) ∷ (0, false) ∷ (1, true) ∷ (1, true) ∷ []

run-removals_example :
    let ps = run one_fails (replicate 2 attached) in
    (removals ps ≤ 1) × (1 ≤ removals ps → nattch ps ≡ 0)
run-removals_example = run-removals 2 one_fails

run_leak_example :
    (is : List ℕ) × (run (working is) (replicate 3 attached) ≡ replicate 3 (ended false))
run_leak_example = run_leak 3 (omega arith)

run-in_turn_example :
    run (working (in_turn 0 3)) (replicate 3 attached)
    ≡ replicate 2 (ended false) ++ ended true ∷ []
run-in_turn_example = run-in_turn 2
