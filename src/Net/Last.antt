-- ===== src/Net/Last.antt =====
-- Which address `misc_getMacAddress` returns, call after call.
use libmisc.Base.{
  ℕ, ◌≡◌, refl, ap, ◌∙◌, Bool, true, false, not, ◌&&◌, Option, none, some, List, [], ◌∷◌, ◌++◌, ◌<◌,
  sym, lt→ltb, ltb, if◌then◌else◌, length,
}
use libmisc.Base.Text.{Text}
use libmisc.Net.{Query, HwAddr, mac_text, get_mac_address, Result, null, overrun, address}

-- `pMac` behind some calls.
unfoldable pub mac_after : ℕ → List (Query HwAddr) → Text → Text
mac_after ifnamsiz [] p_mac = p_mac
mac_after ifnamsiz (q ∷ qs) p_mac = mac_after ifnamsiz qs (get_mac_address ifnamsiz q p_mac).1

-- The addresses that the system gave to some calls, whichever interface they were for.
abbrev pub is_asked : {A : Type 0} → ℕ → Query A → Bool
is_asked ifnamsiz q = q.has_socket && ltb (length q.ifname) ifnamsiz

abbrev pub texts : Bool → Option HwAddr → List Text
texts false answer = []
texts true none = []
texts true (some hw) = mac_text hw ∷ []

-- The last text of some, or a text for none.
abbrev pub last_or : Text → List Text → Text
last_or t [] = t
last_or t (x ∷ xs) = last_or x xs

unfoldable pub answered : ℕ → List (Query HwAddr) → List Text
answered ifnamsiz [] = []
answered ifnamsiz (q ∷ qs) = texts (is_asked ifnamsiz q) q.answer ++ answered ifnamsiz qs

last_or-append : (t : Text) (xs ys : List Text) → last_or t (xs ++ ys) ≡ last_or (last_or t xs) ys
last_or-append t [] ys = refl
last_or-append t (x ∷ xs) ys = last_or-append x xs ys

-- One call.
get_mac_address-p_mac :
    (ifnamsiz : ℕ) (q : Query HwAddr) (t : Text)
    → (get_mac_address ifnamsiz q t).1 ≡ last_or t (texts (is_asked ifnamsiz q) q.answer)
unfolding get_mac_address
get_mac_address-p_mac ifnamsiz q t = go q.has_socket (ltb (length q.ifname) ifnamsiz) q.answer
  where
    go :
        (socket fits : Bool) (answer : Option HwAddr)
        → (if not socket
            then (null, t)
            else if not fits
            then (overrun, t)
            else elim answer as (λ _. Result × Text) [
              | none ↦ (address t, t)
              | some hw ↦ (address (mac_text hw), mac_text hw)
            ]).1
          ≡ last_or t (texts (socket && fits) answer)
    go false fits answer = refl
    go true false answer = refl
    go true true none = refl
    go true true (some hw) = refl

mac_after-answered :
    (ifnamsiz : ℕ) (qs : List (Query HwAddr)) (t : Text)
    → mac_after ifnamsiz qs t ≡ last_or t (answered ifnamsiz qs)
unfolding mac_after answered
mac_after-answered ifnamsiz [] t = refl
mac_after-answered ifnamsiz (q ∷ qs) t =
    mac_after-answered ifnamsiz qs (get_mac_address ifnamsiz q t).1
    ∙ ap (λ u. last_or u (answered ifnamsiz qs)) (get_mac_address-p_mac ifnamsiz q t)
    ∙ sym (last_or-append t (texts (is_asked ifnamsiz q) q.answer) (answered ifnamsiz qs))

-- If the system does not answer, `misc_getMacAddress` still returns an address: the last that it was
-- given by any earlier call, for whichever interface, and the empty text if there was none.
pub get_mac_address_stale :
    (ifnamsiz : ℕ) (qs : List (Query HwAddr)) (ifname : Text)
    → length ifname < ifnamsiz
    → (get_mac_address ifnamsiz
        (record { ifname = ifname; has_socket = true; answer = none })
        (mac_after ifnamsiz qs [])).0
      ≡ address (last_or [] (answered ifnamsiz qs))
unfolding get_mac_address
get_mac_address_stale ifnamsiz qs ifname fits =
    rw (lt→ltb (length ifname) ifnamsiz fits) (ap address (mac_after-answered ifnamsiz qs []))
