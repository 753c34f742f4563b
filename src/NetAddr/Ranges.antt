-- ===== src/NetAddr/Ranges.antt =====
-- netbase.cpp: the IPv4 addresses that are routable, as ranges of 32-bit numbers.
use mathlib.Core.Bool.{◌&&◌, ◌||◌, Bool, false, not, true}
use tri_tip.Prelude.{
  ap, arith, if◌then◌else◌, leb, List, refl, ℕ, ◌*◌, ◌++◌, ◌+◌, ◌<◌, ◌==◌, ◌≡◌, ◌∙◌, ◌∷◌, [],
}
use mathlib.Core.Path.{ap₂}
use tri_tip.NetAddr.{unroutable, ipv4, ipv4_prefix, is_routable, is_ipv4, get_network}

unfoldable pub address_of : ℕ → ℕ → ℕ → ℕ → List ℕ
address_of a b c d = ipv4_prefix ++ a ∷ b ∷ c ∷ d ∷ []

unfoldable pub number_of : ℕ → ℕ → ℕ → ℕ → ℕ
number_of a b c d = 16777216 * a + 65536 * b + 256 * c + d

within : ℕ → ℕ → ℕ → Bool
within first last n = leb first n && leb n last

-- 0.0.0.0/8, 10.0.0.0/8, 127.0.0.0/8, 169.254.0.0/16, 172.16.0.0/12, 192.168.0.0/16 and 255.255.255.255
unfoldable pub is_reserved : ℕ → Bool
unfolding within
is_reserved n =
    within 0 16777215 n
    || within 167772160 184549375 n
    || within 2130706432 2147483647 n
    || within 2851995648 2852061183 n
    || within 2886729728 2887778303 n
    || within 3232235520 3232301055 n
    || n == 4294967295

-- The tests of the bytes
unfoldable pub is_special : ℕ → ℕ → ℕ → ℕ → Bool
is_special a b c d =
    a == 0
    || a == 10
    || a == 127
    || (a == 169 && b == 254)
    || (a == 172 && (leb 16 b && leb b 31))
    || (a == 192 && b == 168)
    || (a == 255 && b == 255 && c == 255 && d == 255)

routable-special : (a b c d : ℕ) → is_routable (address_of a b c d) ≡ not (is_special a b c d)
unfolding is_routable address_of is_special
routable-special a b c d = ground arith

module _ (a b c d : ℕ) (ha : a < 256) (hb : b < 256) (hc : c < 256) (hd : d < 256) where
  n : ℕ
  n = 16777216 * a + 65536 * b + 256 * c + d

  wide : (k : ℕ) → (a == k) ≡ within (16777216 * k) (16777216 * k + 16777215) n
  unfolding within n
  wide k = ground arith

  narrow :
      (k l : ℕ)
      → l < 256
      → (a == k && b == l) ≡ within (16777216 * k + 65536 * l) (16777216 * k + 65536 * l + 65535) n
  unfolding within n
  narrow k l h = ground arith

  middle : (a == 172 && (leb 16 b && leb b 31)) ≡ within 2886729728 2887778303 n
  unfolding within n
  middle = ground arith

  last_one : (a == 255 && b == 255 && c == 255 && d == 255) ≡ (n == 4294967295)
  unfolding n
  last_one = ground arith

  special-reserved : is_special a b c d ≡ is_reserved (number_of a b c d)
  unfolding is_special is_reserved number_of n
  special-reserved =
      either
        (either
          (either
            (either (either (either (wide 0) (wide 10)) (wide 127)) (narrow 169 254 (omega arith)))
            middle)
          (narrow 192 168 (omega arith)))
        last_one
    where
      either : {p q r s : Bool} → p ≡ q → r ≡ s → (p || r) ≡ (q || s)
      either e f = ap₂ (λ x y. x || y) e f

network-routable :
    (a b c d : ℕ) (r : Bool)
    → is_routable (address_of a b c d) ≡ r
    → get_network (address_of a b c d) ≡ (if r then ipv4 else unroutable)
unfolding get_network address_of is_ipv4
network-routable a b c d r e = ap (λ t. if not t then unroutable else ipv4) e ∙ swap r
  where
    swap : (t : Bool) → (if not t then unroutable else ipv4) ≡ (if t then ipv4 else unroutable)
    swap true = refl
    swap false = refl

-- GetNetwork on an IPv4 address: it is not routable when it stands, as a number of 32 bits, in one of the ranges
-- 0.0.0.0/8, 10.0.0.0/8, 127.0.0.0/8, 169.254.0.0/16, 172.16.0.0/12 and 192.168.0.0/16, or is 255.255.255.255, and
-- it is in the IPv4 network otherwise.
pub get_network-address_of :
    (a b c d : ℕ)
    → a < 256
    → b < 256
    → c < 256
    → d < 256
    → get_network (address_of a b c d)
      ≡ (if not (is_reserved (number_of a b c d)) then ipv4 else unroutable)
get_network-address_of a b c d ha hb hc hd =
    network-routable a b c d _
      (routable-special a b c d ∙ ap not (special-reserved a b c d ha hb hc hd))
