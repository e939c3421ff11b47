-- ===== src/Net/Tests.antt =====
-- The theorems at two interfaces.
use libmisc.Base.{ℕ, suc, ◌≡◌, ◌<◌, refl, true, Option, none, some, List, [], ◌∷◌, length, arith}
use libmisc.Base.Text.{Text, codes}
use libmisc.Net.{Query, HwAddr, mac_text, get_mac_address, address}
use libmisc.Net.Mac.{IsHwAddr, read_mac, read_mac-mac_text}
use libmisc.Net.Last.{mac_after, answered, last_or, get_mac_address_stale}

abbrev hw : HwAddr
hw = record { b0 = 0; b1 = 26; b2 = 0x2b; b3 = 255; b4 = 16; b5 = 9 }

abbrev eth0 : Query HwAddr
eth0 = record { ifname = codes "eth0"; has_socket = true; answer = some hw }

hw_text : mac_text hw ≡ codes "00:1A:2B:FF:10:09"
unfolding mac_text libmisc.Base.Text.Format.hex_byte
hw_text = refl

hw-IsHwAddr : IsHwAddr hw
hw-IsHwAddr = record {
  b0_lt = omega arith;
  b1_lt = omega arith;
  b2_lt = omega arith;
  b3_lt = omega arith;
  b4_lt = omega arith;
  b5_lt = omega arith;
}

read_mac-mac_text_example : (read_mac (mac_text hw) ≡ some hw) × (suc (length (mac_text hw)) ≡ 18)
read_mac-mac_text_example = read_mac-mac_text hw hw-IsHwAddr

get_mac_address_stale_example :
    (get_mac_address 16
      (record { ifname = codes "wl0"; has_socket = true; answer = none })
      (mac_after 16 (eth0 ∷ []) [])).0
    ≡ address (last_or [] (answered 16 (eth0 ∷ [])))
get_mac_address_stale_example = get_mac_address_stale 16 (eth0 ∷ []) (codes "wl0") (omega arith)
