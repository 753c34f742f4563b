-- ===== src/Murmur.antt =====
-- hash.cpp: MurmurHash3 on vectors of bytes. A uint32_t is a number, reduced modulo 2 ^ 32 where
-- the C++ operation wraps; the blocks are read as on a little-endian machine.
use Prim.Native.Nat.{bit_or, bit_xor}
use tri_tip.Prelude.{[], length, ℕ, ◌%◌, ◌*◌, ◌+◌, ◌-◌, ◌/◌, ◌^◌, ◌∷◌, List}

abbrev pub u32 : ℕ → ℕ
u32 n = n % 2 ^ 32

unfoldable pub rotl32 : ℕ → ℕ → ℕ
rotl32 x r = bit_or (u32 (x * 2 ^ r)) (x / 2 ^ (32 - r))

-- `k1 *= c1; k1 = ROTL32(k1,15); k1 *= c2`
unfoldable pub scramble : ℕ → ℕ
unfolding rotl32
scramble k = u32 (rotl32 (u32 (k * 0xcc9e2d51)) 15 * 0x1b873593)

-- One round of the body, from `h1 ^= k1`.
unfoldable pub mix_block : ℕ → ℕ → ℕ
unfolding rotl32 scramble
mix_block h k = u32 (rotl32 (bit_xor h (scramble k)) 13 * 5 + 0xe6546b64)

unfoldable pub block : ℕ → ℕ → ℕ → ℕ → ℕ
block a b c d = a + b * 2 ^ 8 + c * 2 ^ 16 + d * 2 ^ 24

-- The switch on the tail, which falls through.
unfoldable pub mix_tail : ℕ → List ℕ → ℕ
unfolding scramble
mix_tail h (a ∷ b ∷ c ∷ []) =
    bit_xor h (scramble (bit_xor (bit_xor (bit_xor 0 (c * 2 ^ 16)) (b * 2 ^ 8)) a))
mix_tail h (a ∷ b ∷ []) = bit_xor h (scramble (bit_xor (bit_xor 0 (b * 2 ^ 8)) a))
mix_tail h (a ∷ []) = bit_xor h (scramble (bit_xor 0 a))
mix_tail h _ = h

-- The body and the tail, from the front of the vector.
unfoldable pub mix : ℕ → List ℕ → ℕ
unfolding mix_block block mix_tail
mix h (a ∷ b ∷ c ∷ d ∷ rest) = mix (mix_block h (block a b c d)) rest
mix h tail = mix_tail h tail

unfoldable pub finalize : ℕ → ℕ → ℕ
finalize h size =
    let h₁ = bit_xor h (u32 size) in
    let h₂ = bit_xor h₁ (h₁ / 2 ^ 16) in
    let h₃ = u32 (h₂ * 0x85ebca6b) in
    let h₄ = bit_xor h₃ (h₃ / 2 ^ 13) in let h₅ = u32 (h₄ * 0xc2b2ae35) in bit_xor h₅ (h₅ / 2 ^ 16)

unfoldable pub murmur_hash3 : ℕ → List ℕ → ℕ
unfolding mix finalize
murmur_hash3 seed bytes = finalize (mix seed bytes) (length bytes)
