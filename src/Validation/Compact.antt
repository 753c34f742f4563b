-- ===== src/Validation/Compact.antt =====
-- bignum.h: the compact form of a big number. A CBigNum is an integer; its operations of the OpenSSL
-- library are those of arithmetic.
use mathlib.Core.Bool.{Bool}
use tri_tip.Prelude.{if◌then◌else◌, leb, suc, zero, ℕ, ◌%◌, ◌*◌, ◌+◌, ◌-◌, ◌/◌, ◌==◌, ◌^◌}
use tri_tip.Prelude.Int.{ℤ, pos, negsuc, pos_part, neg_part, ltb_ℤ}

-- `BN_set_negative`, which leaves a zero as it is
unfoldable pub signed : Bool → ℕ → ℤ
signed negative n = if negative then (if n == 0 then pos 0 else negsuc (n - 1)) else pos n

-- SetCompact on an unsigned int: `& 0x007fffff` is the remainder by 2 ^ 23.
unfoldable pub set_compact : ℕ → ℤ
unfolding signed
set_compact compact =
    let size = compact / 2 ^ 24 in
    let word = compact % 2 ^ 23 in
    signed (compact / 2 ^ 23 % 2 == 1)
      (if leb size 3 then word / 2 ^ (8 * (3 - size)) else word * 2 ^ (8 * (size - 3)))

-- `BN_num_bytes`; fuel that bounds the number is enough.
unfoldable pub num_bytes_from : ℕ → ℕ → ℕ
num_bytes_from zero n = 0
num_bytes_from (suc fuel) zero = 0
num_bytes_from (suc fuel) (suc n) = 1 + num_bytes_from fuel (suc n / 256)

unfoldable pub num_bytes : ℕ → ℕ
unfolding num_bytes_from
num_bytes n = num_bytes_from n n

-- The mantissa of GetCompact: three bytes, the first of them the highest of the number.
unfoldable pub mantissa : ℕ → ℕ → ℕ
mantissa size n = if leb size 3 then n * 2 ^ (8 * (3 - size)) else n / 2 ^ (8 * (size - 3))

-- The parts of the result have no bit in common, so that `|=` adds; the size is shifted in 32 bits.
unfoldable pub join_compact : ℕ → ℕ → Bool → ℕ
join_compact size word negative =
    (if word / 2 ^ 23 % 2 == 1
      then word / 256 + (size + 1) * 2 ^ 24 % 2 ^ 32
      else word + size * 2 ^ 24 % 2 ^ 32)
    + (if negative then 2 ^ 23 else 0)

unfoldable pub get_compact : ℤ → ℕ
unfolding num_bytes mantissa join_compact
get_compact z =
    let n = pos_part z + neg_part z in
    join_compact (num_bytes n) (mantissa (num_bytes n) n) (ltb_ℤ z (pos 0))
