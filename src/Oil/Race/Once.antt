-- ===== src/Oil/Race/Once.antt =====
-- The region is removed at most once, and when nobody is attached.
use libmisc.Base.{
  ℕ, zero, suc, ◌+◌, ◌≤◌, ◌≡◌, refl, inl, inr, ◌⊎◌, Bool, true, false, List, [], ◌∷◌, leb, leb→le,
  ◌&&◌, Bool-cases, arith,
}
use libmisc.Oil.Race.{
  Phase, attached, counted, detached, ended, returned, advance, weight, nattch, step_at, run,
  removals, replicate,
}

abbrev one_if : Bool → ℕ
one_if true = 1
one_if false = 0

-- A process that will remove the region or has done so, and one that is attached besides.
abbrev claims : Phase → ℕ
claims attached = 0
claims (counted k) = one_if (leb k 1)
claims (detached k) = one_if (leb k 1)
claims (ended removed) = one_if removed
claims returned = 0

abbrev claims_attached : Phase → ℕ
claims_attached attached = 0
claims_attached (counted k) = one_if (leb k 1)
claims_attached (detached k) = 0
claims_attached (ended removed) = 0
claims_attached returned = 0

abbrev has_removed : Phase → ℕ
has_removed attached = 0
has_removed (counted k) = 0
has_removed (detached k) = 0
has_removed (ended removed) = one_if removed
has_removed returned = 0

unfoldable total : (Phase → ℕ) → List Phase → ℕ
total f [] = 0
total f (p ∷ ps) = f p + total f ps

-- The invariant: nobody claims the region, or one process does, and only it can be attached.
abbrev IsClaimed : ℕ → ℕ → ℕ → Type 0
IsClaimed all_attached attached_claims all_claims =
    (all_claims ≡ 0) ⊎ (all_claims ≡ 1) × (all_attached ≡ attached_claims)

IsSafe : List Phase → Type 0
IsSafe ps = IsClaimed (nattch ps) (total claims_attached ps) (total claims ps)

-- The sums of the other processes, besides one that goes from a phase to the next.
record Focus (n : ℕ) (works : Bool) (before after : List Phase) : Type 0 where
  phase : Phase
  others_attached : ℕ
  others_claim_attached : ℕ
  others_claim : ℕ
  few : others_claim_attached ≤ others_attached
  fewer : others_claim_attached ≤ others_claim
  attached_before : nattch before ≡ weight phase + others_attached
  claim_attached_before :
      total claims_attached before ≡ claims_attached phase + others_claim_attached
  claim_before : total claims before ≡ claims phase + others_claim
  attached_after : nattch after ≡ weight (advance n phase works) + others_attached
  claim_attached_after :
      total claims_attached after ≡ claims_attached (advance n phase works) + others_claim_attached
  claim_after : total claims after ≡ claims (advance n phase works) + others_claim

one_if_le : (b : Bool) → one_if b ≤ 1
one_if_le true = omega arith
one_if_le false = omega arith

claims_attached_le : (p : Phase) → (claims_attached p ≤ weight p) × (claims_attached p ≤ claims p)
claims_attached_le attached = (omega arith, omega arith)
claims_attached_le (counted k) = (one_if_le (leb k 1), omega arith)
claims_attached_le (detached k) = (omega arith, omega arith)
claims_attached_le (ended removed) = (omega arith, omega arith)
claims_attached_le returned = (omega arith, omega arith)

total_le :
    (ps : List Phase)
    → (total claims_attached ps ≤ nattch ps) × (total claims_attached ps ≤ total claims ps)
unfolding total nattch
total_le [] = (omega arith, omega arith)
total_le (p ∷ ps) =
    let here = claims_attached_le p in
    let rest = total_le ps in (omega (arith, here.0, rest.0), omega (arith, here.1, rest.1))

-- A step changes one process, or none.
step_at-Focus :
    (n : ℕ) (works : Bool) (i : ℕ) (ps : List Phase)
    → Focus n works ps (step_at n works i ps) ⊎ (step_at n works i ps ≡ ps)
unfolding step_at nattch total
step_at-Focus n works i [] = inr refl
step_at-Focus n works zero (p ∷ ps) = inl (record {
  phase = p;
  others_attached = nattch ps;
  others_claim_attached = total claims_attached ps;
  others_claim = total claims ps;
  few = (total_le ps).0;
  fewer = (total_le ps).1;
  attached_before = refl;
  claim_attached_before = refl;
  claim_before = refl;
  attached_after = refl;
  claim_attached_after = refl;
  claim_after = refl;
})
step_at-Focus n works (suc i) (p ∷ ps) = elim (step_at-Focus n works i ps) [
  | inl f ↦
      let here = claims_attached_le p in
      inl (record {
        phase = f.phase;
        others_attached = weight p + f.others_attached;
        others_claim_attached = claims_attached p + f.others_claim_attached;
        others_claim = claims p + f.others_claim;
        few = omega (arith, here.0, f.few);
        fewer = omega (arith, here.1, f.fewer);
        attached_before = omega (arith, f.attached_before);
        claim_attached_before = omega (arith, f.claim_attached_before);
        claim_before = omega (arith, f.claim_before);
        attached_after = omega (arith, f.attached_after);
        claim_attached_after = omega (arith, f.claim_attached_after);
        claim_after = omega (arith, f.claim_after);
      })
  | inr same ↦ inr (rw same refl)
]

rewritten : {a c d a' c' d' : ℕ} → a ≡ a' → c ≡ c' → d ≡ d' → IsClaimed a c d → IsClaimed a' c' d'
rewritten e f g (inl none_yet) = inl (omega (arith, g, none_yet))
rewritten e f g (inr (one, only)) = inr (omega (arith, g, one), omega (arith, e, f, only))

-- A process detaches that claims the region or does not.
detach-IsClaimed :
    (claimed : Bool) (a c d : ℕ)
    → c ≤ a
    → IsClaimed (1 + a) (one_if claimed + c) (one_if claimed + d)
    → IsClaimed (0 + a) (0 + c) (one_if claimed + d)
detach-IsClaimed true a c d few h = elim h [
  | inl none_yet ↦ absurd (omega (arith, none_yet))
  | inr (one, only) ↦ inr (one, omega (arith, only))
]
detach-IsClaimed false a c d few h = elim h [
  | inl none_yet ↦ inl none_yet
  | inr (one, only) ↦ absurd (omega (arith, only, few))
]

-- A process removes the region, or fails to.
remove-IsClaimed :
    (claimed works : Bool) (a c d : ℕ)
    → c ≤ a
    → IsClaimed (0 + a) (0 + c) (one_if claimed + d)
    → IsClaimed (0 + a) (0 + c) (one_if (claimed && works) + d)
remove-IsClaimed true true a c d few h = h
remove-IsClaimed true false a c d few h = elim h [
  | inl none_yet ↦ absurd (omega (arith, none_yet))
  | inr (one, only) ↦ inl (omega (arith, one))
]
remove-IsClaimed false works a c d few h = h

-- The invariant in the numbers of a `Focus`.
advance-IsClaimed :
    (p : Phase) (works : Bool) (a c d : ℕ)
    → c ≤ a
    → c ≤ d
    → IsClaimed (weight p + a) (claims_attached p + c) (claims p + d)
    → let q = advance (weight p + a) p works in
      IsClaimed (weight q + a) (claims_attached q + c) (claims q + d)
unfolding advance
advance-IsClaimed attached true a c d few fewer (inl none_yet) = elim (Bool-cases (leb (1 + a) 1)) [
  | inl alone ↦
      rw alone
        (inr (omega (arith, none_yet), omega (arith, none_yet, fewer, leb→le (1 + a) 1 alone)))
  | inr more ↦ rw more (inl none_yet)
]
advance-IsClaimed attached true a c d few fewer (inr one) = absurd (omega (arith, one.1, few))
advance-IsClaimed attached false a c d few fewer h = h
advance-IsClaimed (counted k) works a c d few fewer h = detach-IsClaimed (leb k 1) a c d few h
advance-IsClaimed (detached k) works a c d few fewer h =
    remove-IsClaimed (leb k 1) works a c d few h
advance-IsClaimed (ended removed) works a c d few fewer h = h
advance-IsClaimed returned works a c d few fewer h = h

step_at-IsSafe :
    (works : Bool) (i : ℕ) (ps : List Phase) → IsSafe ps → IsSafe (step_at (nattch ps) works i ps)
unfolding IsSafe
step_at-IsSafe works i ps h = elim (step_at-Focus (nattch ps) works i ps) [
  | inl f ↦
      rw (f.attached_after, f.claim_attached_after, f.claim_after, f.attached_before)
        (advance-IsClaimed f.phase works f.others_attached f.others_claim_attached f.others_claim
          f.few f.fewer (rewritten f.attached_before f.claim_attached_before f.claim_before h))
  | inr same ↦ rw same h
]

run-IsSafe : (is : List (ℕ × Bool)) (ps : List Phase) → IsSafe ps → IsSafe (run is ps)
unfolding run
run-IsSafe [] ps h = h
run-IsSafe ((i, works) ∷ is) ps h =
    run-IsSafe is (step_at (nattch ps) works i ps) (step_at-IsSafe works i ps h)

start-IsSafe : (n : ℕ) → total claims (replicate n attached) ≡ 0
unfolding total
start-IsSafe zero = refl
start-IsSafe (suc n) = omega (arith, start-IsSafe n)

-- The claims of those that are attached, and those that have removed the region.
removals_le : (ps : List Phase) → total claims_attached ps + removals ps ≤ total claims ps
unfolding total removals
removals_le [] = omega arith
removals_le (attached ∷ ps) = omega (arith, removals_le ps)
removals_le (counted k ∷ ps) = omega (arith, removals_le ps)
removals_le (detached k ∷ ps) = omega (arith, removals_le ps)
removals_le (returned ∷ ps) = omega (arith, removals_le ps)
removals_le (ended true ∷ ps) = omega (arith, removals_le ps)
removals_le (ended false ∷ ps) = omega (arith, removals_le ps)

-- Whatever the order of the steps is, and whichever calls fail: of the processes that are attached and
-- clean up, at most one removes the region, and once it is removed, none is attached.
pub run-removals :
    (n : ℕ) (is : List (ℕ × Bool))
    → let ps = run is (replicate n attached) in
      (removals ps ≤ 1) × (1 ≤ removals ps → nattch ps ≡ 0)
unfolding IsSafe
run-removals n is =
    let ps = run is (replicate n attached) in
    let bound = removals_le ps in
    elim (run-IsSafe is (replicate n attached) (inl (start-IsSafe n))) [
      | inl none_yet ↦
          (omega (arith, bound, none_yet), λ h. absurd (omega (arith, bound, none_yet, h)))
      | inr (one, only) ↦ (omega (arith, bound, one), λ h. omega (arith, bound, one, only, h))
    ]
