-- ===== src/Base64/RoundTrip.antt =====
-- util.cpp: DecodeBase64 after EncodeBase64.
use mathlib.Core.Path.{subst}
use tri_tip.Prelude.{==_iff}
use mathlib.Core.Bool.{◌&&◌, Bool, false, true}
use tri_tip.Prelude.{
  ap, arith, Bool-cases, inl, inr, List, none, Option-cases, refl, some, suc, zero, ℕ, ◌%◌, ◌*◌,
  ◌+◌, ◌/◌, ◌<◌, ◌==◌, ◌≡◌, ◌∙◌, ◌∷◌, [],
}
use tri_tip.Bloom.Bits.{AllBytes}
use tri_tip.Base64.{
  Mode, m0, m1, m2, m3, letter, digit, encode_loop, encode, next_left, emit, next_mode, decode_loop,
  is_invalid, decode, pad,
}

all_digits : ℕ → Bool
unfolding digit letter
all_digits zero = true
all_digits (suc n) = elim (digit (letter n)) [ none ↦ false | some d ↦ d == n && all_digits n ]

all_digits_64 : all_digits 64 ≡ true
unfolding digit letter all_digits
all_digits_64 = refl

digit-letter_below : (n d : ℕ) → all_digits n ≡ true → d < n → digit (letter d) ≡ some d
unfolding all_digits
digit-letter_below zero d e h = absurd (omega arith)
digit-letter_below (suc n) d e h = elim (Option-cases (digit (letter n))) [
  | inl f ↦ absurd (ground arith)
  | inr (c, f) ↦ elim (Bool-cases (n == d)) [
    | inl q ↦
        let p : n ≡ d = (==_iff n d).0 q in
        let r : c ≡ n = ground arith in subst (λ x. digit (letter x) ≡ some x) p (f ∙ ap some r)
    | inr q ↦ digit-letter_below n d (ground arith) (ground arith)
  ]
]

-- Every letter reads back as its digit.
decode_letter :
    (m : Mode) (left d : ℕ) (cs : List ℕ)
    → d < 64
    → decode_loop m left (letter d ∷ cs) ≡ (
        let r = decode_loop (next_mode m) (next_left m left d) cs in
        (emit m left d r.0, r.1, r.2, r.3))
unfolding decode_loop
decode_letter m left d cs h = rw (digit-letter_below 64 d all_digits_64 h, decode_loop) refl

-- The text decodes to the bytes, and is valid.
Decodes : (m : Mode) (left : ℕ) (text bytes : List ℕ) → Type 0
Decodes m left text bytes =
    (m' : Mode) × (left' : ℕ) × (rest : List ℕ) × (decode_loop m left text
      ≡ (bytes, m', left', rest))
    × (is_invalid m' left' rest ≡ false)

-- One letter further: the round puts out a byte or none.
step :
    (m : Mode) (left d : ℕ) (cs bytes : List ℕ)
    → d < 64
    → Decodes (next_mode m) (next_left m left d) cs bytes
    → Decodes m left (letter d ∷ cs) (emit m left d bytes)
unfolding Decodes
step m left d cs bytes h (m', left', rest, e, v) = (
  m',
  left',
  rest,
  decode_letter m left d cs h ∙ ap (λ r. (emit m left d r.0, r.1, r.2, r.3)) e,
  v,
)

chunks : (l l' : ℕ) (bytes : List ℕ) → AllBytes bytes → Decodes m0 l (encode_loop m0 l' bytes) bytes
unfolding encode_loop Decodes decode_loop is_invalid emit next_left next_mode
chunks l l' [] b = (m0, l, [], refl, refl)
chunks l l' (a ∷ []) (ha, b) =
    subst (Decodes m0 l (letter (a / 4) ∷ letter (a % 4 * 16) ∷ pad ∷ pad ∷ [])) (λ i. one i ∷ [])
      (step m0 l (a / 4) _ _ (omega arith) (
        step m1 (a / 4) (a % 4 * 16) _ _ (omega arith) (
          subst (λ x. Decodes m2 x (pad ∷ pad ∷ []) []) none_left
            (m2, 0, pad ∷ pad ∷ [], refl, refl))))
  where
    one : a / 4 * 4 + a % 4 * 16 / 16 ≡ a
    one = omega arith

    none_left : 0 ≡ a % 4 * 16 % 16
    none_left = omega arith
chunks l l' (a ∷ b ∷ []) (ha, (hb, hs)) =
    subst
      (Decodes m0 l
        (letter (a / 4) ∷ letter (a % 4 * 16 + b / 16) ∷ letter (b % 16 * 4) ∷ pad ∷ []))
      (λ i. one i ∷ two i ∷ [])
      (step m0 l (a / 4) _ _ (omega arith) (
        step m1 (a / 4) (a % 4 * 16 + b / 16) _ _ (omega arith) (
          step m2 ((a % 4 * 16 + b / 16) % 16) (b % 16 * 4) _ _ (omega arith)
            (subst (λ x. Decodes m3 x (pad ∷ []) []) none_left (m3, 0, pad ∷ [], refl, refl)))))
  where
    one : a / 4 * 4 + (a % 4 * 16 + b / 16) / 16 ≡ a
    one = omega arith

    two : (a % 4 * 16 + b / 16) % 16 * 16 + b % 16 * 4 / 4 ≡ b
    two = omega arith

    none_left : 0 ≡ b % 16 * 4 % 4
    none_left = omega arith
chunks l l' (a ∷ b ∷ c ∷ bs) (ha, (hb, (hc, hs))) =
    subst (Decodes m0 l (encode_loop m0 l' (a ∷ b ∷ c ∷ bs))) (λ i. one i ∷ two i ∷ three i ∷ bs)
      (step m0 l (a / 4) _ _ (omega arith) (
        step m1 (a / 4) (a % 4 * 16 + b / 16) _ _ (omega arith) (
          step m2 ((a % 4 * 16 + b / 16) % 16) (b % 16 * 4 + c / 64) _ _ (omega arith) (
            step m3 ((b % 16 * 4 + c / 64) % 4) (c % 64) _ _ (omega arith)
              (chunks ((b % 16 * 4 + c / 64) % 4) (b % 16 * 4) bs hs)))))
  where
    one : a / 4 * 4 + (a % 4 * 16 + b / 16) / 16 ≡ a
    one = omega arith

    two : (a % 4 * 16 + b / 16) % 16 * 16 + (b % 16 * 4 + c / 64) / 4 ≡ b
    two = omega arith

    three : (b % 16 * 4 + c / 64) % 4 * 64 + c % 64 ≡ c
    three = omega arith

-- `DecodeBase64` gives the bytes back from what `EncodeBase64` makes of them, and takes it as valid.
pub decode-encode_64 : (bytes : List ℕ) → AllBytes bytes → decode (encode bytes) ≡ (bytes, false)
unfolding decode encode Decodes
decode-encode_64 bytes b =
    let (m, left, rest, e, v) = chunks 0 0 bytes b in
    ap (λ r. (r.0, is_invalid r.1 r.2 r.3)) e ∙ ap (λ x. (bytes, x)) v
