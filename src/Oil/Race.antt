-- ===== src/Oil/Race.antt =====
-- `oil_shmCleanup` by several processes at a time: its three system calls are the steps of a process,
-- and a schedule says whose step is next, and whether the call works. IPC_STAT counts the processes that
-- are attached. A process is attached at the address that it hands over, and behind `shmdt` it is
-- not, whatever that returns: its only error says that nothing is attached there.
pub mod Once
pub mod Leak
pub mod Calls
use libmisc.Base.{ℕ, zero, suc, ◌+◌, Bool, true, false, List, [], ◌∷◌, leb, if◌then◌else◌, ◌&&◌}

-- How far a process is: attached; behind IPC_STAT, which gave `shm_nattch`; behind `shmdt`; at the end,
-- where it has removed the region or not; or returned at a failure of IPC_STAT, and still attached.
pub data Phase : Type 0 where
  attached : Phase
  counted detached : ℕ → Phase
  ended : Bool → Phase
  returned : Phase

-- The next call of a process, while `n` processes are attached; `works` says whether it succeeds.
unfoldable pub advance : ℕ → Phase → Bool → Phase
advance n attached true = counted n
advance n attached false = returned
advance n (counted k) works = detached k
advance n (detached k) works = ended (leb k 1 && works)
advance n (ended removed) works = ended removed
advance n returned works = returned

-- A process is attached up to its `shmdt`, or for good if it returned before.
abbrev pub weight : Phase → ℕ
weight attached = 1
weight (counted k) = 1
weight (detached k) = 0
weight (ended removed) = 0
weight returned = 1

unfoldable pub nattch : List Phase → ℕ
nattch [] = 0
nattch (p ∷ ps) = weight p + nattch ps

-- A step of the process with an index.
unfoldable pub step_at : ℕ → Bool → ℕ → List Phase → List Phase
unfolding advance
step_at n works i [] = []
step_at n works zero (p ∷ ps) = advance n p works ∷ ps
step_at n works (suc i) (p ∷ ps) = p ∷ step_at n works i ps

-- The steps of a schedule.
unfoldable pub run : List (ℕ × Bool) → List Phase → List Phase
unfolding step_at nattch
run [] ps = ps
run ((i, works) ∷ is) ps = run is (step_at (nattch ps) works i ps)

-- The schedule in which all the calls work.
abbrev pub working : List ℕ → List (ℕ × Bool)
working [] = []
working (i ∷ is) = (i, true) ∷ working is

-- The processes that have removed the region.
unfoldable pub removals : List Phase → ℕ
removals [] = 0
removals (ended true ∷ ps) = suc (removals ps)
removals (ended false ∷ ps) = removals ps
removals (attached ∷ ps) = removals ps
removals (counted k ∷ ps) = removals ps
removals (detached k ∷ ps) = removals ps
removals (returned ∷ ps) = removals ps

-- So many processes in a phase.
abbrev pub replicate : ℕ → Phase → List Phase
replicate zero p = []
replicate (suc n) p = p ∷ replicate n p
