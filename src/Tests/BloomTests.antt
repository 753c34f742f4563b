-- ===== src/Tests/BloomTests.antt =====
-- bloom.cpp and hash.cpp at concrete inputs.
use mathlib.Core.Bool.{Bool, true}
use tri_tip.Prelude.{arith, List, refl, some, ℕ, ◌≡◌, ◌∷◌, []}
use tri_tip.Bloom.Members.{Grows, IsValid, contains-insert}
use tri_tip.Bloom.Relevant.Updates.{Relevant, is_relevant_and_update-Relevant}
use tri_tip.Bloom.Relevant.{Script, is_relevant_and_update}
use tri_tip.Bloom.{BloomFilter, contains, insert}
use tri_tip.Core.Transaction.{Transaction}
use tri_tip.Murmur.{murmur_hash3}
use tri_tip.Prelude.Int.{pos}

-- The published vectors of the hash.
murmur_empty : murmur_hash3 0xFBA4C795 [] ≡ 0x6a396f08
unfolding murmur_hash3
murmur_empty = refl

murmur_one : murmur_hash3 0xFBA4C795 (0x00 ∷ []) ≡ 0xea3f0b17
unfolding murmur_hash3
murmur_one = refl

murmur_three : murmur_hash3 0 (0x00 ∷ 0x11 ∷ 0x22 ∷ []) ≡ 0x8eb51c3d
unfolding murmur_hash3
murmur_three = refl

murmur_four : murmur_hash3 0 (0x00 ∷ 0x11 ∷ 0x22 ∷ 0x33 ∷ []) ≡ 0xb4471bf8
unfolding murmur_hash3
murmur_four = refl

abbrev filter : BloomFilter
filter = record { bytes = 0 ∷ 0 ∷ 0 ∷ []; hash_funcs = 5; tweak = 0; flags = 1 }

filter-IsValid : IsValid filter
filter-IsValid = omega arith

abbrev key : List ℕ
key = 0x99 ∷ 0x10 ∷ []

contains-insert_example :
    (g : BloomFilter) × (insert key filter ≡ some g) × Grows filter g × (contains key g ≡ some true)
contains-insert_example = contains-insert key filter filter-IsValid

-- A script is its one data element; hashes and outpoints are written as they are.
abbrev plain : Script
plain = record {
  data_elements = λ s. s ∷ [];
  pays_to_key = λ s. true;
  hash_bytes = λ h. h ∷ [];
  outpoint_bytes = λ o. o.hash ∷ o.n ∷ [];
}

abbrev payment : Transaction
payment = record {
  version = 1;
  vin = [];
  vout = record { value = pos 4; script_pub_key = 0x51 ∷ [] } ∷ [];
  lock_time = 0;
}

is_relevant_and_update-Relevant_example :
    (b : Bool) × (g : BloomFilter) × (is_relevant_and_update plain payment 8 filter ≡ some (b, g))
    × Relevant plain payment 8 filter b g
is_relevant_and_update-Relevant_example =
    is_relevant_and_update-Relevant plain payment 8 filter filter-IsValid
