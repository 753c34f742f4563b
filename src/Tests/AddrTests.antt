-- ===== src/Tests/AddrTests.antt =====
-- addrman.cpp at concrete inputs.
use mathlib.Core.Bool.{Bool, false}
use mathlib.Core.Bool.{true}
use tri_tip.Prelude.{List, none, Option, refl, some, suc, zero, ℕ, ◌+◌, ◌-◌, ◌≡◌, ◌∷◌, []}
use tri_tip.AddrMan.{Info, AddrMan, empty, create, get_addr}
use tri_tip.AddrMan.Tried.{Eviction, select_tried}
use tri_tip.AddrMan.New.{shrink_new}
use tri_tip.Prelude.{get_elem?}
use tri_tip.AddrMan.Addresses.{addresses}
use tri_tip.AddrMan.Add.{Address, Table, Draw, add}
use tri_tip.AddrMan.Reachable.{added, empty_table, Reachable, Safe, start, Reachable-Safe}

abbrev address : ℕ → Address
address n = record { addr = n; port = 8333; time = 5000000; last_try = 0 }

-- Every address goes to the third bucket.
abbrev draw : Draw
draw = record { random = λ n. 0; picks = λ i. true; now = 5000100; routable = true; bucket = 3 }

abbrev got : Option (Table × Bool) → Table
got none = empty_table
got (some r) = r.0

abbrev one_address : Table
one_address = got (add 1 draw 0 (address 5) empty_table)

abbrev two_addresses : Table
two_addresses = got (add 1 draw 0 (address 9) one_address)

adds_five : add 1 draw 0 (address 5) empty_table ≡ some (one_address, true)
unfolding add empty_table
adds_five = refl

adds_nine : add 1 draw 0 (address 9) one_address ≡ some (two_addresses, true)
unfolding add empty_table
adds_nine = refl

two_addresses-Reachable : Reachable 1 two_addresses
two_addresses-Reachable =
    added one_address draw 0 (address 9) (two_addresses, true)
      (added empty_table draw 0 (address 5) (one_address, true) start adds_five) adds_nine

Reachable-Safe_example : Safe two_addresses.man
Reachable-Safe_example = Reachable-Safe 1 two_addresses two_addresses-Reachable

-- With buckets of one entry the second address takes the place of the first, which leaves the table.
second_replaces_first :
    (two_addresses.man.random ≡ 1 ∷ [])
    × (two_addresses.buckets 3 ≡ 1 ∷ [])
    × (two_addresses.man.map_addr ≡ (9, 1) ∷ [])
unfolding add empty_table
second_replaces_first = (refl, refl, refl)

abbrev addresses_of : ℕ → AddrMan
addresses_of zero = empty
addresses_of (suc n) = create (100 + n) 8333 200 0 (addresses_of n)

abbrev given : Option (List Info × AddrMan) → List ℕ
given none = []
given (some r) = addresses r.0

-- 23 percent of nine addresses
gives_two : given (get_addr (λ i m. m - 1) (addresses_of 9)) ≡ 108 ∷ 100 ∷ []
unfolding get_addr create empty addresses
gives_two = refl

abbrev info_at : ℕ → ℕ → Info
info_at success position = record {
  addr = success;
  port = 8333;
  time = 200;
  last_try = 0;
  last_success = success;
  attempts = 0;
  ref_count = 1;
  in_tried = false;
  random_pos = position;
}

abbrev tried_infos : List (ℕ × Info)
tried_infos = (1, info_at 50 0) ∷ (2, info_at 10 1) ∷ []

abbrev evicted : Option Eviction → Option ℕ
evicted none = none
evicted (some s) = elim s.oldest [ none ↦ none | some (id, pos) ↦ get_elem? s.tried pos ]

-- SelectTried looks at the numbers 2 and 1 and takes 2 for the one that was tried least recently, but at
-- the position it gives stands 1 after the exchange.
evicts_the_other : evicted (select_tried (λ i m. m - 1) tried_infos (1 ∷ 2 ∷ [])) ≡ some 1
unfolding select_tried
evicts_the_other = refl

-- ShrinkNew takes the entry that was tried three times and never reached.
abbrev new_entry : AddrMan
new_entry = record {
  id_count = 2;
  map_info =
      (0, record (info_at 0 0) { time = 5000000; attempts = 3 })
      ∷ (1, record (info_at 60 1) { time = 5000000 })
      ∷ [];
  map_addr = (0, 0) ∷ (60, 1) ∷ [];
  random = 0 ∷ 1 ∷ [];
}

abbrev left : Option (AddrMan × List ℕ × ℕ) → List ℕ × List ℕ
left none = ([], [])
left (some (s, bucket, code)) = (s.random, bucket)

shrinks_to_one : left (shrink_new (λ i. true) 5000100 (0 ∷ 1 ∷ []) new_entry) ≡ (1 ∷ [], 1 ∷ [])
unfolding shrink_new
shrinks_to_one = refl
