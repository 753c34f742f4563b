-- ===== src/NetAddr.antt =====
-- netbase.cpp: the classes of network addresses.
pub mod Ranges
pub mod Groups
use mathlib.Core.Bool.{◌&&◌, ◌||◌, Bool, false, not, true}
use tri_tip.Prelude.{
  ap, arith, Bool-cases, drop, get_or, if◌then◌else◌, inl, inr, leb, length, length-append, List,
  lt→ltb, ltb, ltb→lt, map, none, Option, Option-cases, refl, set, length-set, some, suc, sym, take,
  zero, ℕ, ◌%◌, ◌*◌, ◌++◌, ◌+◌, ◌-◌, ◌/◌, ◌<◌, ◌==◌, ◌≡◌, ◌^◌, ◌∙◌, ◌∷◌, ◌≢◌, ◌≤◌, ◌⊎◌, [],
  replicate,
}
use tri_tip.Prelude.{get_elem?}

-- enum Network
pub data Network : Type 0 where
  unroutable : Network
  ipv4 : Network
  ipv6 : Network
  tor : Network

unfoldable pub starts_with : List ℕ → List ℕ → Bool
starts_with [] ip = true
starts_with (b ∷ bs) [] = false
starts_with (b ∷ bs) (x ∷ xs) = x == b && starts_with bs xs

abbrev pub ipv4_prefix : List ℕ
ipv4_prefix = 0 ∷ 0 ∷ 0 ∷ 0 ∷ 0 ∷ 0 ∷ 0 ∷ 0 ∷ 0 ∷ 0 ∷ 0xFF ∷ 0xFF ∷ []

abbrev pub onion_cat : List ℕ
onion_cat = 0xFD ∷ 0x87 ∷ 0xD8 ∷ 0x7E ∷ 0xEB ∷ 0x43 ∷ []

-- Of an address of 16 bytes
unfoldable pub get_byte : ℕ → List ℕ → ℕ
get_byte n ip = elim (get_elem? ip (15 - n)) [ none ↦ 0 | some b ↦ b ]

-- A byte with a mask: `0xFE` leaves out the last bit, `0xF0` the last four.
unfoldable pub without_low : ℕ → ℕ → ℕ
without_low m b = b - b % m

unfoldable pub is_ipv4 : List ℕ → Bool
unfolding starts_with
is_ipv4 ip = starts_with ipv4_prefix ip

unfoldable pub is_tor : List ℕ → Bool
unfolding starts_with
is_tor ip = starts_with onion_cat ip

unfoldable pub is_ipv6 : List ℕ → Bool
unfolding is_ipv4 is_tor
is_ipv6 ip = not (is_ipv4 ip) && not (is_tor ip)

unfoldable pub is_rfc1918 : List ℕ → Bool
unfolding is_ipv4 get_byte
is_rfc1918 ip =
    is_ipv4 ip
    && (get_byte 3 ip == 10
        || (get_byte 3 ip == 192 && get_byte 2 ip == 168)
        || (get_byte 3 ip == 172 && (leb 16 (get_byte 2 ip) && leb (get_byte 2 ip) 31)))

unfoldable pub is_rfc3927 : List ℕ → Bool
unfolding is_ipv4 get_byte
is_rfc3927 ip = is_ipv4 ip && (get_byte 3 ip == 169 && get_byte 2 ip == 254)

unfoldable pub is_rfc3849 : List ℕ → Bool
unfolding get_byte
is_rfc3849 ip =
    get_byte 15 ip == 0x20
    && get_byte 14 ip == 0x01
    && get_byte 13 ip == 0x0D
    && get_byte 12 ip == 0xB8

unfoldable pub is_rfc4862 : List ℕ → Bool
unfolding starts_with
is_rfc4862 ip = starts_with (0xFE ∷ 0x80 ∷ 0 ∷ 0 ∷ 0 ∷ 0 ∷ 0 ∷ 0 ∷ []) ip

unfoldable pub is_rfc4193 : List ℕ → Bool
unfolding get_byte without_low
is_rfc4193 ip = without_low 2 (get_byte 15 ip) == 0xFC

unfoldable pub is_rfc4843 : List ℕ → Bool
unfolding get_byte without_low
is_rfc4843 ip =
    get_byte 15 ip == 0x20
    && get_byte 14 ip == 0x01
    && get_byte 13 ip == 0x00
    && without_low 16 (get_byte 12 ip) == 0x10

unfoldable pub is_local : List ℕ → Bool
unfolding is_ipv4 get_byte starts_with
is_local ip =
    if is_ipv4 ip && (get_byte 3 ip == 127 || get_byte 3 ip == 0)
    then true
    else starts_with (0 ∷ 0 ∷ 0 ∷ 0 ∷ 0 ∷ 0 ∷ 0 ∷ 0 ∷ 0 ∷ 0 ∷ 0 ∷ 0 ∷ 0 ∷ 0 ∷ 0 ∷ 1 ∷ []) ip

unfoldable pub is_multicast : List ℕ → Bool
unfolding is_ipv4 get_byte without_low
is_multicast ip = (is_ipv4 ip && without_low 16 (get_byte 3 ip) == 0xE0) || get_byte 15 ip == 0xFF

unfoldable pub is_valid : List ℕ → Bool
unfolding is_ipv4 is_rfc3849 starts_with
is_valid ip =
    if starts_with (drop 3 ipv4_prefix) ip
    then false
    else if starts_with (replicate 16 0) ip
    then false
    else if is_rfc3849 ip
    then false
    else if is_ipv4 ip && starts_with (replicate 4 0xFF) (drop 12 ip)
    then false
    else if is_ipv4 ip && starts_with (replicate 4 0) (drop 12 ip)
    then false
    else true

unfoldable pub is_routable : List ℕ → Bool
unfolding is_valid is_rfc1918 is_rfc3927 is_rfc4862 is_rfc4193 is_tor is_rfc4843 is_local
is_routable ip =
    is_valid ip
    && not (
        is_rfc1918 ip
        || is_rfc3927 ip
        || is_rfc4862 ip
        || (is_rfc4193 ip && not (is_tor ip))
        || is_rfc4843 ip
        || is_local ip)

unfoldable pub get_network : List ℕ → Network
unfolding is_routable is_ipv4 is_tor
get_network ip =
    if not (is_routable ip)
    then unroutable
    else if is_ipv4 ip
    then ipv4
    else if is_tor ip
    then tor
    else ipv6
