-- ===== src/Base/Text/Scan.antt =====
-- A number that is printed in decimal digits is read back.
use libmisc.Base.{
  ℕ, zero, suc, ◌+◌, ◌*◌, ◌/◌, ◌%◌, ◌^◌, ◌<◌, ◌≡◌, refl, sym, ap, ◌∙◌, inl, inr, true, false, ◌&&◌,
  ◌||◌, Option, none, some, [], ◌∷◌, ◌==◌, ltb, ltb→lt, lt→ltb, leb, if◌then◌else◌, Bool-cases,
  arith,
}
use libmisc.Base.Int.{ℤ, pos, sub_ℕ}
use libmisc.Base.Text.{Text, digits_before, decimal, is_digit, read_digits, read_signed, atoi}

-- A number behind its sign, if there is a digit.
unfoldable pub scan_unsigned : Text → Option ℕ
scan_unsigned [] = none
scan_unsigned (c ∷ s) = if is_digit c then some (read_digits 0 (c ∷ s)) else none

-- What `fscanf(fp, "%d", &n)` assigns to `n`.
unfoldable pub scan_int : Text → Option ℤ
unfolding scan_unsigned
scan_int [] = none
scan_int (c ∷ s) =
    let rest = scan_int s in
    if c == b' ' || leb 9 c && leb c 13
    then rest
    else if c == b'-'
    then elim (scan_unsigned s) [ none ↦ none | some n ↦ some (sub_ℕ 0 n) ]
    else if c == b'+'
    then elim (scan_unsigned s) [ none ↦ none | some n ↦ some (pos n) ]
    else elim (scan_unsigned (c ∷ s)) [ none ↦ none | some n ↦ some (pos n) ]

unfoldable pub pow10 : ℕ → ℕ
pow10 zero = 1
pow10 (suc k) = 10 * pow10 k

digit_IsDigit : (d : ℕ) → d < 10 → is_digit (b'0' + d) ≡ true
digit_IsDigit d h = ground (arith, h)

-- One more digit.
read_digit :
    (acc d n : ℕ) (rest : Text)
    → d < 10
    → acc * 10 + d ≡ n
    → read_digits acc ((b'0' + d) ∷ rest) ≡ read_digits n rest
unfolding read_digits
read_digit acc d n rest h e =
    rw (digit_IsDigit d h) (ap (λ m. read_digits m rest) (omega (arith, e)))

read_digits-digits_before :
    (k n : ℕ) (rest : Text)
    → n < pow10 (suc k)
    → read_digits 0 (digits_before (suc k) n rest) ≡ read_digits n rest
unfolding read_digits digits_before pow10
read_digits-digits_before zero n rest h =
    rw (lt→ltb n 10 (omega arith)) (read_digit 0 n n rest (omega arith) (omega arith))
read_digits-digits_before (suc k) n rest h = elim (Bool-cases (ltb n 10)) [
  | inl small ↦ rw small (read_digit 0 n n rest (ltb→lt n 10 small) (omega arith))
  | inr big ↦ rw big (
      read_digits-digits_before k (n / 10) ((b'0' + n % 10) ∷ rest) (omega arith)
      ∙ read_digit (n / 10) (n % 10) n rest (omega arith) (omega arith))
]

-- The digits of a number begin with a digit.
digits_before-digit :
    (k n : ℕ) (rest : Text)
    → n < pow10 (suc k)
    → (c : ℕ) × (s : Text) × (digits_before (suc k) n rest ≡ c ∷ s) × (is_digit c ≡ true)
unfolding digits_before pow10
digits_before-digit zero n rest h =
    rw (lt→ltb n 10 (omega arith)) (b'0' + n, rest, refl, digit_IsDigit n (omega arith))
digits_before-digit (suc k) n rest h = elim (Bool-cases (ltb n 10)) [
  | inl small ↦ rw small (b'0' + n, rest, refl, digit_IsDigit n (ltb→lt n 10 small))
  | inr big ↦ rw big (digits_before-digit k (n / 10) ((b'0' + n % 10) ∷ rest) (omega arith))
]

not_blank : (c : ℕ) → is_digit c ≡ true → (c == b' ' || leb 9 c && leb c 13) ≡ false
not_blank c h = ground (arith, h)

not_minus : (c : ℕ) → is_digit c ≡ true → (c == b'-') ≡ false
not_minus c h = ground (arith, h)

not_plus : (c : ℕ) → is_digit c ≡ true → (c == b'+') ≡ false
not_plus c h = ground (arith, h)

-- A digit is neither a blank nor a sign.
scan_int-digit :
    (c : ℕ) (s : Text) → is_digit c ≡ true → scan_int (c ∷ s) ≡ some (pos (read_digits 0 (c ∷ s)))
unfolding scan_int
scan_int-digit c s h = rw (scan_int, not_blank c h, not_minus c h, not_plus c h, h) refl

atoi-digit : (c : ℕ) (s : Text) → is_digit c ≡ true → atoi (c ∷ s) ≡ pos (read_digits 0 (c ∷ s))
unfolding atoi read_signed
atoi-digit c s h = rw (atoi, read_signed, not_blank c h, not_minus c h, not_plus c h) refl

read_digits-decimal : (n : ℕ) → n < 10 ^ 10 → read_digits 0 (decimal n) ≡ n
unfolding decimal pow10 read_digits
read_digits-decimal n h = read_digits-digits_before 9 n [] h

-- A number of at most ten digits is read back.
pub scan_int-decimal : (n : ℕ) → n < 10 ^ 10 → scan_int (decimal n) ≡ some (pos n)
unfolding decimal pow10
scan_int-decimal n h =
    let (c, s, digits, digit) = digits_before-digit 9 n [] h in
    ap scan_int digits
    ∙ scan_int-digit c s digit
    ∙ ap (λ t. some (pos (read_digits 0 t))) (sym digits)
    ∙ ap (λ m. some (pos m)) (read_digits-decimal n h)

pub atoi-decimal : (n : ℕ) → n < 10 ^ 10 → atoi (decimal n) ≡ pos n
unfolding decimal pow10
atoi-decimal n h =
    let (c, s, digits, digit) = digits_before-digit 9 n [] h in
    ap atoi digits
    ∙ atoi-digit c s digit
    ∙ ap (λ t. pos (read_digits 0 t)) (sym digits)
    ∙ ap pos (read_digits-decimal n h)
