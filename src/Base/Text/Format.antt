-- ===== src/Base/Text/Format.antt =====
-- The conversions of `printf` that the code uses beside `%s` and `%u`.
use libmisc.Base.{ℕ, zero, suc, ◌+◌, ◌-◌, ◌/◌, ◌%◌, [], ◌∷◌, ltb, if◌then◌else◌, length}
use libmisc.Base.Int.{ℤ, pos, negsuc}
use libmisc.Base.Text.{Text, decimal}

-- `%d` of an `int`.
unfoldable pub decimal_int : ℤ → Text
decimal_int (pos n) = decimal n
decimal_int (negsuc n) = b'-' ∷ decimal (suc n)

-- `n` zeros in front of a text.
unfoldable pub zeros_before : ℕ → Text → Text
zeros_before zero s = s
zeros_before (suc n) s = b'0' ∷ zeros_before n s

-- A text filled up with zeros to a width.
unfoldable pub padded : ℕ → Text → Text
unfolding zeros_before
padded width s = zeros_before (width - length s) s

-- A hexadecimal digit, with the letters from `letter` on.
abbrev pub hex_digit : ℕ → ℕ → ℕ
hex_digit letter d = if ltb d 10 then b'0' + d else letter + (d - 10)

-- The last `k` hexadecimal digits of a number, in front of `rest`, with small letters.
unfoldable pub hex_before : ℕ → ℕ → Text → Text
hex_before zero n rest = rest
hex_before (suc k) n rest = hex_before k (n / 16) (hex_digit b'a' (n % 16) ∷ rest)

-- `%08x` of an `unsigned int`.
unfoldable pub hex_08 : ℕ → Text
unfolding hex_before
hex_08 n = hex_before 8 n []

-- `%02hhX` of a byte.
unfoldable pub hex_byte : ℕ → Text
hex_byte n = hex_digit b'A' (n / 16) ∷ hex_digit b'A' (n % 16) ∷ []
