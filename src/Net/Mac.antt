-- ===== src/Net/Mac.antt =====
-- The text of a hardware address.
use libmisc.Base.{
  ℕ, suc, ◌+◌, ◌-◌, ◌*◌, ◌/◌, ◌%◌, ◌<◌, ◌≡◌, refl, [], ◌∷◌, ltb, if◌then◌else◌, length, arith,
  Option, none, some,
}
use libmisc.Base.Text.{Text}
use libmisc.Base.Text.Format.{hex_byte, hex_digit}
use libmisc.Net.{HwAddr, mac_text}

-- The value of a hexadecimal digit with large letters.
abbrev unhex : ℕ → ℕ
unhex c = if ltb c b'A' then c - b'0' else c - b'A' + 10

abbrev read_byte : ℕ → ℕ → ℕ
read_byte c d = unhex c * 16 + unhex d

-- The address that a text of six bytes stands for.
unfoldable pub read_mac : Text → Option HwAddr
read_mac (a ∷ a' ∷ x ∷ b ∷ b' ∷ y ∷ c ∷ c' ∷ z ∷ d ∷ d' ∷ u ∷ e ∷ e' ∷ v ∷ f ∷ f' ∷ []) =
    some (record {
      b0 = read_byte a a';
      b1 = read_byte b b';
      b2 = read_byte c c';
      b3 = read_byte d d';
      b4 = read_byte e e';
      b5 = read_byte f f';
    })
read_mac s = none

unhex-hex_digit : (d : ℕ) → d < 16 → unhex (hex_digit b'A' d) ≡ d
unhex-hex_digit d h = ground (arith, h)

read_byte-digits :
    (n : ℕ) → n < 256 → read_byte (hex_digit b'A' (n / 16)) (hex_digit b'A' (n % 16)) ≡ n
read_byte-digits n h =
    omega (arith, unhex-hex_digit (n / 16) (omega arith), unhex-hex_digit (n % 16) (omega arith))

-- The bytes of an address are below 256.
pub record IsHwAddr (a : HwAddr) : Type 0 where
  pub b0_lt : a.b0 < 256
  pub b1_lt : a.b1 < 256
  pub b2_lt : a.b2 < 256
  pub b3_lt : a.b3 < 256
  pub b4_lt : a.b4 < 256
  pub b5_lt : a.b5 < 256

-- An address is read back from its text, so that different addresses have different texts; the text
-- and its terminator fill `pMac`, which has 18 bytes.
pub read_mac-mac_text :
    (a : HwAddr) → IsHwAddr a → (read_mac (mac_text a) ≡ some a) × (suc (length (mac_text a)) ≡ 18)
unfolding read_mac mac_text hex_byte
read_mac-mac_text a h = (
  rw
      (
        read_byte-digits a.b0 h.b0_lt,
        read_byte-digits a.b1 h.b1_lt,
        read_byte-digits a.b2 h.b2_lt,
        read_byte-digits a.b3 h.b3_lt,
        read_byte-digits a.b4 h.b4_lt,
        read_byte-digits a.b5 h.b5_lt,
      )
      refl,
  refl,
)
