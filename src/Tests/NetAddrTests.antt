-- ===== src/Tests/NetAddrTests.antt =====
-- netbase.cpp at concrete addresses.
use mathlib.Core.Bool.{not}
use tri_tip.Prelude.{arith, if◌then◌else◌, List, refl, some, ℕ, ◌≡◌, ◌∷◌, []}
use tri_tip.NetAddr.{Network, unroutable, ipv4, ipv6, tor, get_network}
use tri_tip.NetAddr.Ranges.{address_of, number_of, is_reserved, get_network-address_of}
use tri_tip.NetAddr.Groups.{get_group, get_reachability_from, via_ipv4}

get_network-address_of_example :
    get_network (address_of 172 31 0 9)
    ≡ (if not (is_reserved (number_of 172 31 0 9)) then ipv4 else unroutable)
get_network-address_of_example =
    get_network-address_of 172 31 0 9 (omega arith) (omega arith) (omega arith) (omega arith)

private_is_unroutable : get_network (address_of 172 31 0 9) ≡ unroutable
unfolding get_network address_of
private_is_unroutable = refl

abbrev code_of : Network → ℕ
code_of unroutable = 0
code_of ipv4 = 1
code_of ipv6 = 2
code_of tor = 4

first_two_bytes : get_group code_of (address_of 8 9 10 11) ≡ 1 ∷ 8 ∷ 9 ∷ []
unfolding get_group address_of
first_two_bytes = refl

abbrev onion : List ℕ
onion = 0xFD ∷ 0x87 ∷ 0xD8 ∷ 0x7E ∷ 0xEB ∷ 0x43 ∷ 0xA5 ∷ 1 ∷ 2 ∷ 3 ∷ 4 ∷ 5 ∷ 6 ∷ 7 ∷ 8 ∷ 9 ∷ []

four_bits_of_onion : get_group code_of onion ≡ 4 ∷ 0xAF ∷ []
unfolding get_group
four_bits_of_onion = refl

tor_reaches_ipv4 : get_reachability_from (address_of 8 9 10 11) (some onion) ≡ via_ipv4
unfolding get_reachability_from address_of
tor_reaches_ipv4 = refl
