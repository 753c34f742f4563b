-- ===== src/NetAddr/Groups.antt =====
-- netbase.cpp: GetGroup and GetReachabilityFrom.
use mathlib.Core.Bool.{◌&&◌, ◌||◌, Bool, false, not, true}
use tri_tip.Prelude.{
  ap, if◌then◌else◌, List, none, Option, refl, some, suc, zero, ℕ, ◌%◌, ◌+◌, ◌-◌, ◌/◌, ◌==◌, ◌≡◌,
  ◌^◌, ◌∙◌, ◌∷◌, [],
}
use tri_tip.NetAddr.{
  is_valid, is_rfc1918, is_rfc3927, is_rfc4862, is_rfc4193, is_rfc4843, Network, unroutable, ipv4,
  ipv6, tor, starts_with, get_byte, without_low, is_ipv4, is_tor, is_local, is_routable,
  get_network,
}

unfoldable pub is_rfc3964 : List ℕ → Bool
unfolding get_byte
is_rfc3964 ip = get_byte 15 ip == 0x20 && get_byte 14 ip == 0x02

unfoldable pub is_rfc6052 : List ℕ → Bool
unfolding starts_with
is_rfc6052 ip = starts_with (0 ∷ 0x64 ∷ 0xFF ∷ 0x9B ∷ 0 ∷ 0 ∷ 0 ∷ 0 ∷ 0 ∷ 0 ∷ 0 ∷ 0 ∷ []) ip

unfoldable pub is_rfc4380 : List ℕ → Bool
unfolding get_byte
is_rfc4380 ip =
    get_byte 15 ip == 0x20 && get_byte 14 ip == 0x01 && get_byte 13 ip == 0 && get_byte 12 ip == 0

unfoldable pub is_rfc6145 : List ℕ → Bool
unfolding starts_with
is_rfc6145 ip = starts_with (0 ∷ 0 ∷ 0 ∷ 0 ∷ 0 ∷ 0 ∷ 0 ∷ 0 ∷ 0xFF ∷ 0xFF ∷ 0 ∷ 0 ∷ []) ip

-- The loop and the last bits, from the byte `start` on, on `count` whole bytes and `bits` more
unfoldable pub group_bytes : List ℕ → ℕ → ℕ → ℕ → List ℕ
unfolding get_byte without_low
group_bytes ip start zero bits =
    if bits == 0
    then []
    else (without_low (2 ^ bits) (get_byte (15 - start) ip) + (2 ^ bits - 1)) ∷ []
group_bytes ip start (suc count) bits =
    get_byte (15 - start) ip ∷ group_bytes ip (start + 1) count bits

-- `code` is the number of a network.
unfoldable pub group_of : (Network → ℕ) → List ℕ → Network → ℕ → ℕ → List ℕ
unfolding group_bytes
group_of code ip network start bits = code network ∷ group_bytes ip start (bits / 8) (bits % 8)

-- GetGroup. The class 255 of a local address does not stay: a local address is not routable.
unfoldable pub get_group : (Network → ℕ) → List ℕ → List ℕ
unfolding is_routable is_ipv4 is_rfc6145 is_rfc6052 is_rfc3964 is_rfc4380 is_tor group_of get_byte
get_group code ip =
    if not (is_routable ip)
    then group_of code ip unroutable 0 0
    else if is_ipv4 ip || is_rfc6145 ip || is_rfc6052 ip
    then group_of code ip ipv4 12 16
    else if is_rfc3964 ip
    then group_of code ip ipv4 2 16
    else if is_rfc4380 ip
    then code ipv4 ∷ (255 - get_byte 3 ip) ∷ (255 - get_byte 2 ip) ∷ []
    else if is_tor ip
    then group_of code ip tor 6 4
    else if get_byte 15 ip == 0x20
        && get_byte 14 ip == 0x11
        && get_byte 13 ip == 0x04
        && get_byte 12 ip == 0x70
    then group_of code ip ipv6 0 36
    else group_of code ip ipv6 0 32

-- A local address is in no other group than the addresses that are not routable.
pub local_unroutable : (ip : List ℕ) → is_local ip ≡ true → is_routable ip ≡ false
unfolding is_routable
local_unroutable ip e =
    ap
      (λ t.
        is_valid ip
        && not (
            is_rfc1918 ip
            || is_rfc3927 ip
            || is_rfc4862 ip
            || (is_rfc4193 ip && not (is_tor ip))
            || is_rfc4843 ip
            || t))
      e
    ∙ none_left (is_valid ip) _
  where
    none_left : (v r : Bool) → (v && not (r || true)) ≡ false
    none_left true true = refl
    none_left true false = refl
    none_left false true = refl
    none_left false false = refl

-- GetExtNetwork
pub data ExtNetwork : Type 0 where
  network : Network → ExtNetwork
  unknown : ExtNetwork
  teredo : ExtNetwork

unfoldable pub get_ext_network : Option (List ℕ) → ExtNetwork
unfolding is_rfc4380 get_network
get_ext_network none = unknown
get_ext_network (some ip) = if is_rfc4380 ip then teredo else network (get_network ip)

-- enum Reachability
pub data Reachability : Type 0 where
  unreachable : Reachability
  default : Reachability
  via_teredo : Reachability
  ipv6_weak : Reachability
  via_ipv4 : Reachability
  ipv6_strong : Reachability
  private : Reachability

unfoldable pub reach : Bool → ExtNetwork → ExtNetwork → Reachability
reach tunnel (network ipv4) (network ipv4) = via_ipv4
reach tunnel (network ipv4) ours = default
reach tunnel (network ipv6) teredo = via_teredo
reach tunnel (network ipv6) (network ipv4) = via_ipv4
reach tunnel (network ipv6) (network ipv6) = if tunnel then ipv6_weak else ipv6_strong
reach tunnel (network ipv6) ours = default
reach tunnel (network tor) (network ipv4) = via_ipv4
reach tunnel (network tor) (network tor) = private
reach tunnel (network tor) ours = default
reach tunnel teredo teredo = via_teredo
reach tunnel teredo (network ipv6) = ipv6_weak
reach tunnel teredo (network ipv4) = via_ipv4
reach tunnel teredo ours = default
reach tunnel theirs teredo = via_teredo
reach tunnel theirs (network ipv6) = ipv6_weak
reach tunnel theirs (network ipv4) = via_ipv4
reach tunnel theirs (network tor) = private
reach tunnel theirs ours = default

unfoldable pub get_reachability_from : List ℕ → Option (List ℕ) → Reachability
unfolding is_routable get_ext_network is_rfc3964 is_rfc6052 is_rfc6145 reach
get_reachability_from ip partner =
    if not (is_routable ip)
    then unreachable
    else reach (is_rfc3964 ip || is_rfc6052 ip || is_rfc6145 ip) (get_ext_network partner)
        (get_ext_network (some ip))
