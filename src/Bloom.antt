-- ===== src/Bloom.antt =====
-- bloom.h and bloom.cpp: CBloomFilter. A call that would divide by zero, on a filter of no bytes,
-- is the fault `none`. The two sizes that the constructor takes from logarithms of doubles are
-- arguments, as unsigned ints. script.h is not in the repository: what IsRelevantAndUpdate takes
-- from it is a parameter, `Script`.
pub mod Bits
pub mod Members
pub mod Relevant
use Prim.Native.Nat.{bit_and, bit_or, min}
use mathlib.Core.Bool.{◌&&◌, ◌||◌, Bool, false, not, true}
use tri_tip.Core.OutPoint.{OutPoint}
use tri_tip.Core.Transaction.{Transaction}
use tri_tip.Core.TxIn.{TxIn}
use tri_tip.Core.TxOut.{TxOut}
use tri_tip.Murmur.{murmur_hash3, u32}
use tri_tip.Prelude.{
  [], ◌∷◌, List, Option, get_or, if◌then◌else◌, leb, length, none, replicate, set, some, suc, zero,
  ℕ, ◌%◌, ◌*◌, ◌+◌, ◌/◌, ◌==◌,
}
use tri_tip.Prelude.{◌>>=◌}

pub record BloomFilter : Type 0 where
  pub bytes : List ℕ
  pub hash_funcs : ℕ
  pub tweak : ℕ
  pub flags : ℕ

abbrev pub max_bloom_filter_size : ℕ
max_bloom_filter_size = 36000

abbrev pub max_hash_funcs : ℕ
max_hash_funcs = 50

-- `ideal_bits` is -1 / ln(2)^2 * nElements * log(nFPRate), and `ideal_funcs` is computed from the
-- size that the vector then has.
unfoldable pub new : ℕ → (ℕ → ℕ) → ℕ → ℕ → BloomFilter
new ideal_bits ideal_funcs tweak flags =
    let bytes = replicate (min ideal_bits (max_bloom_filter_size * 8) / 8) 0 in
    record {
      bytes = bytes;
      hash_funcs = min (ideal_funcs (length bytes)) max_hash_funcs;
      tweak = tweak;
      flags = flags;
    }

abbrev pub bit_mask : List ℕ
bit_mask = 0x01 ∷ 0x02 ∷ 0x04 ∷ 0x08 ∷ 0x10 ∷ 0x20 ∷ 0x40 ∷ 0x80 ∷ []

-- `Hash`, the index of a bit
unfoldable pub hash : ℕ → List ℕ → BloomFilter → Option ℕ
hash num key f =
    if length f.bytes == 0
    then none
    else some (murmur_hash3 (u32 (num * 0xFBA4C795 + f.tweak)) key % (length f.bytes * 8))

-- `vData[nIndex >> 3] |= bit_mask[7 & nIndex]`, with `7 & n` as the remainder by 8
unfoldable pub set_bit : List ℕ → ℕ → List ℕ
set_bit bytes index =
    set bytes (index / 8) (bit_or (get_or bytes (index / 8) 0) (get_or bit_mask (index % 8) 0))

-- `vData[nIndex >> 3] & bit_mask[7 & nIndex]`
unfoldable pub bit_at : List ℕ → ℕ → Bool
bit_at bytes index = not (bit_and (get_or bytes (index / 8) 0) (get_or bit_mask (index % 8) 0) == 0)

-- `vData.size() == 1 && vData[0] == 0xff`
unfoldable pub is_full : BloomFilter → Bool
is_full f = length f.bytes == 1 && get_or f.bytes 0 0 == 0xff

-- The loops of `insert` and `contains`, on the rounds left and `i`.
unfoldable pub insert_loop : ℕ → ℕ → List ℕ → BloomFilter → Option BloomFilter
unfolding set_bit hash
insert_loop zero i key f = some f
insert_loop (suc n) i key f = do
  index ← hash i key f
  insert_loop n (i + 1) key (record f { bytes = set_bit f.bytes index })

unfoldable pub insert : List ℕ → BloomFilter → Option BloomFilter
unfolding insert_loop is_full
insert key f = if is_full f then some f else insert_loop f.hash_funcs 0 key f

unfoldable pub contains_loop : ℕ → ℕ → List ℕ → BloomFilter → Option Bool
unfolding bit_at hash
contains_loop zero i key f = some true
contains_loop (suc n) i key f = do
  index ← hash i key f
  let rest = contains_loop n (i + 1) key f
  if bit_at f.bytes index then rest else some false

unfoldable pub contains : List ℕ → BloomFilter → Option Bool
unfolding contains_loop is_full
contains key f = if is_full f then some true else contains_loop f.hash_funcs 0 key f

unfoldable pub is_within_size_constraints : BloomFilter → Bool
is_within_size_constraints f =
    leb (length f.bytes) max_bloom_filter_size && leb f.hash_funcs max_hash_funcs
