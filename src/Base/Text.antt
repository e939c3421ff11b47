-- ===== src/Base/Text.antt =====
-- C strings as lists of bytes, without the terminator, and the library calls that the code makes
-- on them.
pub mod Take
pub mod Format
pub mod Scan
use Prim.Native.Char.{code}
use Prim.Native.String.{String}
use libmisc.Base.{
  ℕ, zero, suc, ◌+◌, ◌-◌, ◌*◌, ◌/◌, ◌%◌, ◌^◌, Bool, true, false, ◌&&◌, ◌||◌, Option, none, some,
  List, [], ◌∷◌, ◌++◌, ◌==◌, leb, ltb, if◌then◌else◌, length, take,
}
use libmisc.Base.Int.{ℤ, pos, negsuc, pos_part, neg_part, sub_ℕ}

abbrev pub Text : Type 0
Text = List ℕ

-- The bytes of a literal.
abbrev pub codes : String → Text
codes String.[] = []
codes (String.◌∷◌ c s) = code c ∷ codes s

-- `strcmp(s, t) == 0`
unfoldable pub text_eq : Text → Text → Bool
text_eq [] [] = true
text_eq [] (y ∷ ys) = false
text_eq (x ∷ xs) [] = false
text_eq (x ∷ xs) (y ∷ ys) = x == y && text_eq xs ys

-- What `snprintf(buf, size, "%s", s)` leaves in the buffer, for a size that is not 0.
unfoldable pub truncated : ℕ → Text → Text
truncated size s = take (size - 1) s

-- The last `n` decimal digits of a number, in front of `rest`, without leading zeros.
unfoldable pub digits_before : ℕ → ℕ → Text → Text
digits_before zero n rest = rest
digits_before (suc k) n rest =
    let more = digits_before k (n / 10) ((b'0' + n % 10) ∷ rest) in
    if ltb n 10 then (b'0' + n) ∷ rest else more

-- `%u` of an `unsigned int`, which has at most ten digits.
unfoldable pub decimal : ℕ → Text
unfolding digits_before
decimal n = digits_before 10 n []

-- `%03u`
unfoldable pub decimal_03 : ℕ → Text
unfolding decimal
decimal_03 n =
    if ltb n 10 then b'0' ∷ b'0' ∷ decimal n else if ltb n 100 then b'0' ∷ decimal n else decimal n

abbrev pub is_digit : ℕ → Bool
is_digit c = leb b'0' c && leb c b'9'

-- The number that the digits at the front of a text stand for, behind `acc`.
unfoldable pub read_digits : ℕ → Text → ℕ
read_digits acc [] = acc
read_digits acc (c ∷ s) =
    let more = read_digits (acc * 10 + (c - b'0')) s in if is_digit c then more else acc

unfoldable pub read_signed : Text → ℤ
unfolding read_digits
read_signed [] = pos 0
read_signed (c ∷ s) =
    if c == b'-'
    then sub_ℕ 0 (read_digits 0 s)
    else if c == b'+'
    then pos (read_digits 0 s)
    else pos (read_digits 0 (c ∷ s))

-- `atoi`
unfoldable pub atoi : Text → ℤ
unfolding read_signed
atoi [] = pos 0
atoi (c ∷ s) =
    let rest = atoi s in if c == b' ' || leb 9 c && leb c 13 then rest else read_signed (c ∷ s)

-- An `int` that is stored in an `unsigned int` or an `enum`.
unfoldable pub to_u32 : ℤ → ℕ
to_u32 (pos n) = n % 2 ^ 32
to_u32 (negsuc n) = 2 ^ 32 - 1 - n % 2 ^ 32
