-- ===== src/Net.antt =====
-- misc_net.c: the addresses of a network interface. What `socket` and `ioctl` answer, the text of
-- `inet_ntoa` and IFNAMSIZ, the size of `ifr_name`, are arguments.
pub mod Mac
pub mod Last
mod Tests
use libmisc.Base.{ℕ, Bool, Option, none, some, List, [], ◌∷◌, ◌++◌, ltb, not, if◌then◌else◌, length}
use libmisc.Base.Text.{Text, codes}
use libmisc.Base.Text.Format.{hex_byte}

-- What a call comes to: it writes behind the end of `ifr_name`, or returns NULL, or a text.
pub data Result : Type 0 where
  overrun : Result
  null : Result
  address : Text → Result

-- The name of an interface, and what the system says of it: whether there is a socket, and the answer
-- of `ioctl`.
pub record Query (A : Type 0) : Type 0 where
  pub ifname : Text
  pub has_socket : Bool
  pub answer : Option A

-- The six bytes of `ifr_hwaddr.sa_data`.
pub record HwAddr : Type 0 where
  pub b0 : ℕ
  pub b1 : ℕ
  pub b2 : ℕ
  pub b3 : ℕ
  pub b4 : ℕ
  pub b5 : ℕ

-- `misc_getIpAddress`; the answer is the text of `inet_ntoa`.
unfoldable pub get_ip_address : ℕ → Query Text → Result
get_ip_address ifnamsiz q =
    if not q.has_socket
    then null
    else if not (ltb (length q.ifname) ifnamsiz)
    then overrun
    else elim q.answer [ none ↦ address (codes "0.0.0.0") | some text ↦ address text ]

-- `"%02hhX:%02hhX:%02hhX:%02hhX:%02hhX:%02hhX"`
unfoldable pub mac_text : HwAddr → Text
mac_text a =
    hex_byte a.b0
    ++ b':'
      ∷ (hex_byte a.b1
          ++ b':'
            ∷ (hex_byte a.b2
                ++ b':' ∷ (hex_byte a.b3 ++ b':' ∷ (hex_byte a.b4 ++ b':' ∷ hex_byte a.b5))))

-- `misc_getMacAddress`, with `pMac` before and behind the call.
unfoldable pub get_mac_address : ℕ → Query HwAddr → Text → Result × Text
unfolding mac_text
get_mac_address ifnamsiz q p_mac =
    if not q.has_socket
    then (null, p_mac)
    else if not (ltb (length q.ifname) ifnamsiz)
    then (overrun, p_mac)
    else elim q.answer [
      | none ↦ (address p_mac, p_mac)
      | some hw ↦ (address (mac_text hw), mac_text hw)
    ]
