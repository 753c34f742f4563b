-- ===== src/Base32/RoundTrip.antt =====
-- util.cpp: DecodeBase32 after EncodeBase32.
use mathlib.Core.Path.{subst}
use tri_tip.Prelude.{==_iff}
use mathlib.Core.Bool.{◌&&◌, Bool, false, true}
use tri_tip.Prelude.{
  ap, arith, Bool-cases, inl, inr, List, none, Option-cases, refl, some, suc, zero, ℕ, ◌%◌, ◌*◌,
  ◌+◌, ◌/◌, ◌<◌, ◌==◌, ◌≡◌, ◌∙◌, ◌∷◌, [],
}
use tri_tip.Bloom.Bits.{AllBytes}
use tri_tip.Base32.{
  Mode, m0, m1, m2, m3, m4, m5, m6, m7, letter, digit, encode_loop, encode, next_left, emit,
  next_mode, decode_loop, is_invalid, decode, pad,
}

all_digits : ℕ → Bool
unfolding digit letter
all_digits zero = true
all_digits (suc n) = elim (digit (letter n)) [ none ↦ false | some d ↦ d == n && all_digits n ]

all_digits_32 : all_digits 32 ≡ true
unfolding digit letter all_digits
all_digits_32 = refl

digit-letter_below : (n d : ℕ) → all_digits n ≡ true → d < n → digit (letter d) ≡ some d
unfolding all_digits
digit-letter_below zero d e h = absurd (omega arith)
digit-letter_below (suc n) d e h = elim (Option-cases (digit (letter n))) [
  | inl f ↦ absurd (ground arith)
  | inr (c, f) ↦ elim (Bool-cases (n == d)) [
    | inl q ↦
        let p : n ≡ d = (==_iff n d).0 q in
        let r : c ≡ n = ground arith in subst (λ x. digit (letter x) ≡ some x) p (f ∙ ap some r)
    | inr q ↦ digit-letter_below n d (ground arith) (ground arith)
  ]
]

-- Every letter reads back as its digit.
decode_letter :
    (m : Mode) (left d : ℕ) (cs : List ℕ)
    → d < 32
    → decode_loop m left (letter d ∷ cs) ≡ (
        let r = decode_loop (next_mode m) (next_left m left d) cs in
        (emit m left d r.0, r.1, r.2, r.3))
unfolding decode_loop
decode_letter m left d cs h = rw (digit-letter_below 32 d all_digits_32 h, decode_loop) refl

-- The text decodes to the bytes, and is valid.
Decodes : (m : Mode) (left : ℕ) (text bytes : List ℕ) → Type 0
Decodes m left text bytes =
    (m' : Mode) × (left' : ℕ) × (rest : List ℕ) × (decode_loop m left text
      ≡ (bytes, m', left', rest))
    × (is_invalid m' left' rest ≡ false)

-- One letter further: the round puts out a byte or none.
step :
    (m : Mode) (left d : ℕ) (cs bytes : List ℕ)
    → d < 32
    → Decodes (next_mode m) (next_left m left d) cs bytes
    → Decodes m left (letter d ∷ cs) (emit m left d bytes)
unfolding Decodes
step m left d cs bytes h (m', left', rest, e, v) = (
  m',
  left',
  rest,
  decode_letter m left d cs h ∙ ap (λ r. (emit m left d r.0, r.1, r.2, r.3)) e,
  v,
)

chunks : (l l' : ℕ) (bytes : List ℕ) → AllBytes bytes → Decodes m0 l (encode_loop m0 l' bytes) bytes
unfolding encode_loop Decodes decode_loop is_invalid emit next_left next_mode
chunks l l' [] b = (m0, l, [], refl, refl)
chunks l l' (a ∷ []) (ha, hs) =
    subst (Decodes m0 l (encode_loop m0 l' (a ∷ []))) (λ i. one i ∷ [])
      (step m0 (l) (a / 8) _ _ (omega arith) (
        step m1 (a / 8) (a % 8 * 4) _ _ (omega arith) (
          subst (λ x. Decodes m2 x (pad ∷ pad ∷ pad ∷ pad ∷ pad ∷ pad ∷ []) []) none_left
            (m2, 0, pad ∷ pad ∷ pad ∷ pad ∷ pad ∷ pad ∷ [], refl, refl))))
  where
    one : a / 8 * 8 + (a % 8 * 4) / 4 ≡ a
    one = omega arith

    none_left : 0 ≡ (a % 8 * 4) % 4
    none_left = omega arith
chunks l l' (a ∷ b ∷ []) (ha, (hb, hs)) =
    subst (Decodes m0 l (encode_loop m0 l' (a ∷ b ∷ []))) (λ i. one i ∷ two i ∷ [])
      (step m0 (l) (a / 8) _ _ (omega arith) (
        step m1 (a / 8) (a % 8 * 4 + b / 64) _ _ (omega arith) (
          step m2 ((a % 8 * 4 + b / 64) % 4) (b / 2 % 32) _ _ (omega arith) (
            step m3 ((a % 8 * 4 + b / 64) % 4 * 32 + b / 2 % 32) (b % 2 * 16) _ _ (omega arith) (
              subst (λ x. Decodes m4 x (pad ∷ pad ∷ pad ∷ pad ∷ []) []) none_left
                (m4, 0, pad ∷ pad ∷ pad ∷ pad ∷ [], refl, refl))))))
  where
    one : a / 8 * 8 + (a % 8 * 4 + b / 64) / 4 ≡ a
    one = omega arith

    two : ((a % 8 * 4 + b / 64) % 4 * 32 + b / 2 % 32) * 2 + (b % 2 * 16) / 16 ≡ b
    two = omega arith

    none_left : 0 ≡ (b % 2 * 16) % 16
    none_left = omega arith
chunks l l' (a ∷ b ∷ c ∷ []) (ha, (hb, (hc, hs))) =
    subst (Decodes m0 l (encode_loop m0 l' (a ∷ b ∷ c ∷ []))) (λ i. one i ∷ two i ∷ three i ∷ [])
      (step m0 (l) (a / 8) _ _ (omega arith) (
        step m1 (a / 8) (a % 8 * 4 + b / 64) _ _ (omega arith) (
          step m2 ((a % 8 * 4 + b / 64) % 4) (b / 2 % 32) _ _ (omega arith) (
            step m3 ((a % 8 * 4 + b / 64) % 4 * 32 + b / 2 % 32) (b % 2 * 16 + c / 16) _ _
              (omega arith)
              (step m4 ((b % 2 * 16 + c / 16) % 16) (c % 16 * 2) _ _ (omega arith) (
                subst (λ x. Decodes m5 x (pad ∷ pad ∷ pad ∷ []) []) none_left
                  (m5, 0, pad ∷ pad ∷ pad ∷ [], refl, refl)))))))
  where
    one : a / 8 * 8 + (a % 8 * 4 + b / 64) / 4 ≡ a
    one = omega arith

    two : ((a % 8 * 4 + b / 64) % 4 * 32 + b / 2 % 32) * 2 + (b % 2 * 16 + c / 16) / 16 ≡ b
    two = omega arith

    three : (b % 2 * 16 + c / 16) % 16 * 16 + (c % 16 * 2) / 2 ≡ c
    three = omega arith

    none_left : 0 ≡ (c % 16 * 2) % 2
    none_left = omega arith
chunks l l' (a ∷ b ∷ c ∷ d ∷ []) (ha, (hb, (hc, (hd, hs)))) =
    subst (Decodes m0 l (encode_loop m0 l' (a ∷ b ∷ c ∷ d ∷ [])))
      (λ i. one i ∷ two i ∷ three i ∷ four i ∷ [])
      (step m0 (l) (a / 8) _ _ (omega arith) (
        step m1 (a / 8) (a % 8 * 4 + b / 64) _ _ (omega arith) (
          step m2 ((a % 8 * 4 + b / 64) % 4) (b / 2 % 32) _ _ (omega arith) (
            step m3 ((a % 8 * 4 + b / 64) % 4 * 32 + b / 2 % 32) (b % 2 * 16 + c / 16) _ _
              (omega arith)
              (step m4 ((b % 2 * 16 + c / 16) % 16) (c % 16 * 2 + d / 128) _ _ (omega arith) (
                step m5 ((c % 16 * 2 + d / 128) % 2) (d / 4 % 32) _ _ (omega arith) (
                  step m6 ((c % 16 * 2 + d / 128) % 2 * 32 + d / 4 % 32) (d % 4 * 8) _ _
                    (omega arith)
                    (subst (λ x. Decodes m7 x (pad ∷ []) []) none_left
                      (m7, 0, pad ∷ [], refl, refl)))))))))
  where
    one : a / 8 * 8 + (a % 8 * 4 + b / 64) / 4 ≡ a
    one = omega arith

    two : ((a % 8 * 4 + b / 64) % 4 * 32 + b / 2 % 32) * 2 + (b % 2 * 16 + c / 16) / 16 ≡ b
    two = omega arith

    three : (b % 2 * 16 + c / 16) % 16 * 16 + (c % 16 * 2 + d / 128) / 2 ≡ c
    three = omega arith

    four : ((c % 16 * 2 + d / 128) % 2 * 32 + d / 4 % 32) * 4 + (d % 4 * 8) / 8 ≡ d
    four = omega arith

    none_left : 0 ≡ (d % 4 * 8) % 8
    none_left = omega arith
chunks l l' (a ∷ b ∷ c ∷ d ∷ e ∷ bs) (ha, (hb, (hc, (hd, (he, hs))))) =
    subst (Decodes m0 l (encode_loop m0 l' (a ∷ b ∷ c ∷ d ∷ e ∷ bs)))
      (λ i. one i ∷ two i ∷ three i ∷ four i ∷ five i ∷ bs)
      (step m0 (l) (a / 8) _ _ (omega arith) (
        step m1 (a / 8) (a % 8 * 4 + b / 64) _ _ (omega arith) (
          step m2 ((a % 8 * 4 + b / 64) % 4) (b / 2 % 32) _ _ (omega arith) (
            step m3 ((a % 8 * 4 + b / 64) % 4 * 32 + b / 2 % 32) (b % 2 * 16 + c / 16) _ _
              (omega arith)
              (step m4 ((b % 2 * 16 + c / 16) % 16) (c % 16 * 2 + d / 128) _ _ (omega arith) (
                step m5 ((c % 16 * 2 + d / 128) % 2) (d / 4 % 32) _ _ (omega arith) (
                  step m6 ((c % 16 * 2 + d / 128) % 2 * 32 + d / 4 % 32) (d % 4 * 8 + e / 32) _ _
                    (omega arith)
                    (step m7 ((d % 4 * 8 + e / 32) % 8) (e % 32) _ _ (omega arith)
                      (chunks ((d % 4 * 8 + e / 32) % 8) (d % 4 * 8) bs hs)))))))))
  where
    one : a / 8 * 8 + (a % 8 * 4 + b / 64) / 4 ≡ a
    one = omega arith

    two : ((a % 8 * 4 + b / 64) % 4 * 32 + b / 2 % 32) * 2 + (b % 2 * 16 + c / 16) / 16 ≡ b
    two = omega arith

    three : (b % 2 * 16 + c / 16) % 16 * 16 + (c % 16 * 2 + d / 128) / 2 ≡ c
    three = omega arith

    four : ((c % 16 * 2 + d / 128) % 2 * 32 + d / 4 % 32) * 4 + (d % 4 * 8 + e / 32) / 8 ≡ d
    four = omega arith

    five : (d % 4 * 8 + e / 32) % 8 * 32 + e % 32 ≡ e
    five = omega arith

-- `DecodeBase32` gives the bytes back from what `EncodeBase32` makes of them, and takes it as valid.
pub decode-encode_32 : (bytes : List ℕ) → AllBytes bytes → decode (encode bytes) ≡ (bytes, false)
unfolding decode encode Decodes
decode-encode_32 bytes b =
    let (m, left, rest, e, v) = chunks 0 0 bytes b in
    ap (λ r. (r.0, is_invalid r.1 r.2 r.3)) e ∙ ap (λ x. (bytes, x)) v
