-- ===== src/Base/Text/Take.antt =====
-- Truncation and concatenation.
use libmisc.Base.{ℕ, zero, suc, ◌-◌, ◌≤◌, ◌≡◌, refl, ap, List, [], ◌∷◌, ◌++◌, arith, length, take}

module _ {ℓ} {A : Type ℓ} where
  pub take-append :
      (n : ℕ) (xs ys : List A) → take n (xs ++ ys) ≡ take n xs ++ take (n - length xs) ys
  take-append zero xs ys = rw zero_sub
    where
      zero_sub : zero - length xs ≡ zero
      zero_sub = omega arith
  take-append (suc n) [] ys = rw sub_zero
    where
      sub_zero : suc n - zero ≡ suc n
      sub_zero = omega arith
  take-append (suc n) (x ∷ xs) ys = rw same (ap (λ l. x ∷ l) (take-append n xs ys))
    where
      same : suc n - suc (length xs) ≡ n - length xs
      same = omega arith

  -- A text that fits is not truncated.
  pub take_all : (n : ℕ) (xs : List A) → length xs ≤ n → take n xs ≡ xs
  take_all zero [] h = refl
  take_all zero (x ∷ xs) h = absurd (omega arith)
  take_all (suc n) [] h = refl
  take_all (suc n) (x ∷ xs) h = ap (λ l. x ∷ l) (take_all n xs (omega arith))

  pub take-take : (n m : ℕ) (xs : List A) → n ≤ m → take n (take m xs) ≡ take n xs
  take-take zero m xs h = refl
  take-take (suc n) zero xs h = absurd (omega arith)
  take-take (suc n) (suc m) [] h = refl
  take-take (suc n) (suc m) (x ∷ xs) h = ap (λ l. x ∷ l) (take-take n m xs (omega arith))

  -- What stands behind a full buffer is cut off.
  pub take-append_full : (n : ℕ) (xs ys : List A) → n ≤ length xs → take n (xs ++ ys) ≡ take n xs
  take-append_full zero xs ys h = refl
  take-append_full (suc n) [] ys h = absurd (omega arith)
  take-append_full (suc n) (x ∷ xs) ys h = ap (λ l. x ∷ l) (take-append_full n xs ys (omega arith))

  -- Truncating the first part to the size of the buffer does not change the whole.
  pub take-append_take :
      (n m : ℕ) (xs ys : List A) → n ≤ m → take n (take m xs ++ ys) ≡ take n (xs ++ ys)
  take-append_take zero m xs ys h = refl
  take-append_take (suc n) zero xs ys h = absurd (omega arith)
  take-append_take (suc n) (suc m) [] ys h = refl
  take-append_take (suc n) (suc m) (x ∷ xs) ys h =
      ap (λ l. x ∷ l) (take-append_take n m xs ys (omega arith))
