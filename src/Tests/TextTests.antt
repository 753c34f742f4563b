-- ===== src/Tests/TextTests.antt =====
-- util.cpp at concrete inputs.
use mathlib.Core.Bool.{false}
use tri_tip.Prelude.{arith, List, refl, ℕ, ◌≡◌, ◌∷◌, []}
use tri_tip.Base32
use tri_tip.Base32.RoundTrip.{decode-encode_32}
use tri_tip.Base64
use tri_tip.Base64.RoundTrip.{decode-encode_64}

-- "foob"
abbrev text : List ℕ
text = 102 ∷ 111 ∷ 111 ∷ 98 ∷ []

-- "Zm9vYg=="
encoded_64 : Base64.encode text ≡ 90 ∷ 109 ∷ 57 ∷ 118 ∷ 89 ∷ 103 ∷ 61 ∷ 61 ∷ []
unfolding Base64.encode
encoded_64 = refl

-- "mzxw6yq="
encoded_32 : Base32.encode text ≡ 109 ∷ 122 ∷ 120 ∷ 119 ∷ 54 ∷ 121 ∷ 113 ∷ 61 ∷ []
unfolding Base32.encode
encoded_32 = refl

decode-encode_64_example : Base64.decode (Base64.encode text) ≡ (text, false)
decode-encode_64_example =
    decode-encode_64 text (omega arith, (omega arith, (omega arith, (omega arith, tt))))

decode-encode_32_example : Base32.decode (Base32.encode text) ≡ (text, false)
decode-encode_32_example =
    decode-encode_32 text (omega arith, (omega arith, (omega arith, (omega arith, tt))))
