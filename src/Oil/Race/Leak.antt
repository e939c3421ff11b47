-- ===== src/Oil/Race/Leak.antt =====
-- Schedules of several processes: the region is removed if they clean up one after another, but not if
-- they all count the processes before one of them detaches.
use libmisc.Base.{
  ℕ, zero, suc, ◌+◌, ◌≤◌, ◌≡◌, refl, ap, ◌∙◌, true, false, List, [], ◌∷◌, ◌++◌, leb, ◌&&◌, arith,
}
use libmisc.Oil.Race.{
  Phase, attached, counted, detached, ended, advance, weight, nattch, step_at, run, working,
  replicate,
}

-- The indexes from `m` on, so many.
abbrev indexes : ℕ → ℕ → List ℕ
indexes m zero = []
indexes m (suc k) = m ∷ indexes (suc m) k

-- All processes make a step, in order.
abbrev sweep : ℕ → List ℕ
sweep n = indexes 0 n

run-append :
    (is js : List ℕ) (ps : List Phase)
    → run (working (is ++ js)) ps ≡ run (working js) (run (working is) ps)
unfolding run
run-append [] js ps = refl
run-append (i ∷ is) js ps = run-append is js (step_at (nattch ps) true i ps)

step_at-middle :
    (n m : ℕ) (q p : Phase) (ps : List Phase)
    → step_at n true m (replicate m q ++ p ∷ ps) ≡ replicate m q ++ advance n p true ∷ ps
unfolding step_at
step_at-middle n zero q p ps = refl
step_at-middle n (suc m) q p ps = ap (λ l. q ∷ l) (step_at-middle n m q p ps)

replicate-snoc :
    (m : ℕ) (q : Phase) (ps : List Phase) → replicate m q ++ q ∷ ps ≡ replicate (suc m) q ++ ps
replicate-snoc zero q ps = refl
replicate-snoc (suc m) q ps = ap (λ l. q ∷ l) (replicate-snoc m q ps)

replicate-nil : (m : ℕ) (q : Phase) → replicate m q ++ [] ≡ replicate m q
replicate-nil zero q = refl
replicate-nil (suc m) q = ap (λ l. q ∷ l) (replicate-nil m q)

-- The processes from `m` on step from `p` to `q`, whatever the count is at each step.
run-indexes :
    (m k : ℕ) (p q : Phase)
    → ((i j : ℕ)
        → i + suc j ≡ m + k
        → advance (nattch (replicate i q ++ replicate (suc j) p)) p true ≡ q)
    → run (working (indexes m k)) (replicate m q ++ replicate k p) ≡ replicate (m + k) q
unfolding run
run-indexes m zero p q moves = replicate-nil m q ∙ ap (λ n. replicate n q) (omega arith)
run-indexes m (suc k) p q moves =
    ap (run (working (indexes (suc m) k))) (
      step_at-middle (nattch (replicate m q ++ replicate (suc k) p)) m q p (replicate k p)
      ∙ ap (λ r. replicate m q ++ r ∷ replicate k p) (moves m k refl)
      ∙ replicate-snoc m q (replicate k p))
    ∙ run-indexes (suc m) k p q (λ i j e. moves i j (omega (arith, e)))
    ∙ ap (λ n. replicate n q) (omega arith)

nattch-both : (i j n : ℕ) → nattch (replicate i (counted n) ++ replicate j attached) ≡ i + j
unfolding nattch
nattch-both zero zero n = refl
nattch-both zero (suc j) n = omega (arith, nattch-both zero j n)
nattch-both (suc i) j n = omega (arith, nattch-both i j n)

-- The sweep in which all count, detach, or come to their end.
all_count : (n : ℕ) → run (working (sweep n)) (replicate n attached) ≡ replicate n (counted n)
unfolding advance
all_count n =
    run-indexes 0 n attached (counted n)
      (λ i j e. ap counted (nattch-both i (suc j) n ∙ e ∙ omega arith))
    ∙ ap (λ k. replicate k (counted n)) (omega arith)

all_detach : (n : ℕ) → run (working (sweep n)) (replicate n (counted n)) ≡ replicate n (detached n)
unfolding advance
all_detach n =
    run-indexes 0 n (counted n) (detached n) (λ i j e. refl)
    ∙ ap (λ k. replicate k (detached n)) (omega arith)

all_end :
    (n : ℕ) → 2 ≤ n → run (working (sweep n)) (replicate n (detached n)) ≡ replicate n (ended false)
unfolding advance
all_end n many =
    run-indexes 0 n (detached n) (ended false) (λ i j e. ap ended (ground (arith, many)))
    ∙ ap (λ k. replicate k (ended false)) (omega arith)

-- For two or more processes that are attached, there is an order of their steps, all of which
-- work, after which all of them have come to the end of `oil_shmCleanup`, and none has removed
-- the region.
pub run_leak :
    (n : ℕ)
    → 2 ≤ n
    → (is : List ℕ) × (run (working is) (replicate n attached) ≡ replicate n (ended false))
run_leak n many = (
  sweep n ++ (sweep n ++ sweep n),
  run-append (sweep n) (sweep n ++ sweep n) (replicate n attached)
      ∙ ap (run (working (sweep n ++ sweep n))) (all_count n)
      ∙ run-append (sweep n) (sweep n) (replicate n (counted n))
      ∙ ap (run (working (sweep n))) (all_detach n)
      ∙ all_end n many,
)

-- The three steps of the processes, one process after another.
abbrev pub in_turn : ℕ → ℕ → List ℕ
in_turn m zero = []
in_turn m (suc k) = m ∷ m ∷ m ∷ in_turn (suc m) k

nattch-rest :
    (m k : ℕ) (p : Phase)
    → nattch (replicate m (ended false) ++ p ∷ replicate k attached) ≡ weight p + k
unfolding nattch
nattch-rest zero zero p = refl
nattch-rest zero (suc k) p = omega (arith, nattch-rest zero k p)
nattch-rest (suc m) k p = omega (arith, nattch-rest m k p)

-- A process makes a step behind those that have ended.
run-middle :
    (m k : ℕ) (p : Phase) (is : List ℕ)
    → run (working (m ∷ is)) (replicate m (ended false) ++ p ∷ replicate k attached)
      ≡ run
          (working is)
          (replicate m (ended false) ++ advance (weight p + k) p true ∷ replicate k attached)
unfolding run
run-middle m k p is = ap (run (working is)) (
    step_at-middle (nattch (replicate m (ended false) ++ p ∷ replicate k attached)) m (ended false)
      p (replicate k attached)
    ∙ ap (λ n. replicate m (ended false) ++ advance n p true ∷ replicate k attached)
        (nattch-rest m k p))

clean_up :
    (m k : ℕ) (is : List ℕ)
    → run (working (m ∷ m ∷ m ∷ is)) (replicate m (ended false) ++ replicate (suc k) attached)
      ≡ run
          (working is)
          (replicate m (ended false) ++ ended (leb (1 + k) 1 && true) ∷ replicate k attached)
unfolding advance
clean_up m k is =
    run-middle m k attached (m ∷ m ∷ is)
    ∙ run-middle m k (counted (1 + k)) (m ∷ is)
    ∙ run-middle m k (detached (1 + k)) is

run-in_turn_from :
    (m k : ℕ)
    → run (working (in_turn m (suc k))) (replicate m (ended false) ++ replicate (suc k) attached)
      ≡ replicate (m + k) (ended false) ++ ended true ∷ []
unfolding run
run-in_turn_from m zero =
    clean_up m 0 [] ∙ ap (λ n. replicate n (ended false) ++ ended true ∷ []) (omega arith)
run-in_turn_from m (suc k) =
    clean_up m (suc k) (in_turn (suc m) (suc k))
    ∙ ap
        (λ b.
          run (working (in_turn (suc m) (suc k)))
            (replicate m (ended false) ++ ended b ∷ replicate (suc k) attached))
        (ground arith)
    ∙ ap (run (working (in_turn (suc m) (suc k))))
        (replicate-snoc m (ended false) (replicate (suc k) attached))
    ∙ run-in_turn_from (suc m) k
    ∙ ap (λ n. replicate n (ended false) ++ ended true ∷ []) (omega arith)

-- If the processes clean up one after another, and their calls work, exactly the last one removes the region.
pub run-in_turn :
    (k : ℕ)
    → run (working (in_turn 0 (suc k))) (replicate (suc k) attached)
      ≡ replicate k (ended false) ++ ended true ∷ []
run-in_turn k =
    run-in_turn_from 0 k ∙ ap (λ n. replicate n (ended false) ++ ended true ∷ []) (omega arith)
