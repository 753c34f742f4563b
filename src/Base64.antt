-- ===== src/Base64.antt =====
-- util.cpp: EncodeBase64 and DecodeBase64, on the lists of the bytes. The parts that `|` joins have no
-- bit in common, so that it adds. A string ends where the list does, and reads as 0 there.
pub mod RoundTrip
use mathlib.Core.Bool.{◌&&◌, ◌||◌, Bool, false, not, true}
use tri_tip.Prelude.{
  ap, arith, Bool-cases, drop, get_or, if◌then◌else◌, inl, inr, leb, length, length-append, List,
  lt→ltb, ltb, ltb→lt, map, none, Option, Option-cases, refl, set, length-set, some, suc, sym, take,
  zero, ℕ, ◌%◌, ◌*◌, ◌++◌, ◌+◌, ◌-◌, ◌/◌, ◌<◌, ◌==◌, ◌≡◌, ◌^◌, ◌∙◌, ◌∷◌, ◌≢◌, ◌≤◌, ◌⊎◌, [],
  replicate,
}

abbrev pub alphabet : List ℕ
alphabet =
    65 ∷ 66 ∷ 67 ∷ 68 ∷ 69 ∷ 70 ∷ 71 ∷ 72 ∷ 73 ∷ 74 ∷ 75 ∷ 76 ∷ 77 ∷ 78 ∷ 79 ∷ 80 ∷ 81 ∷ 82 ∷ 83
    ∷ 84 ∷ 85 ∷ 86 ∷ 87 ∷ 88 ∷ 89 ∷ 90 ∷ 97 ∷ 98 ∷ 99 ∷ 100 ∷ 101 ∷ 102 ∷ 103 ∷ 104 ∷ 105 ∷ 106
    ∷ 107 ∷ 108 ∷ 109 ∷ 110 ∷ 111 ∷ 112 ∷ 113 ∷ 114 ∷ 115 ∷ 116 ∷ 117 ∷ 118 ∷ 119 ∷ 120 ∷ 121 ∷ 122
    ∷ 48 ∷ 49 ∷ 50 ∷ 51 ∷ 52 ∷ 53 ∷ 54 ∷ 55 ∷ 56 ∷ 57 ∷ 43 ∷ 47 ∷ []

-- The table of the decoder, with 64 in place of -1.
abbrev pub decode_table : List ℕ
decode_table =
    64 ∷ 64 ∷ 64 ∷ 64 ∷ 64 ∷ 64 ∷ 64 ∷ 64 ∷ 64 ∷ 64 ∷ 64 ∷ 64 ∷ 64 ∷ 64 ∷ 64 ∷ 64 ∷ 64 ∷ 64 ∷ 64
    ∷ 64 ∷ 64 ∷ 64 ∷ 64 ∷ 64 ∷ 64 ∷ 64 ∷ 64 ∷ 64 ∷ 64 ∷ 64 ∷ 64 ∷ 64 ∷ 64 ∷ 64 ∷ 64 ∷ 64 ∷ 64 ∷ 64
    ∷ 64 ∷ 64 ∷ 64 ∷ 64 ∷ 64 ∷ 62 ∷ 64 ∷ 64 ∷ 64 ∷ 63 ∷ 52 ∷ 53 ∷ 54 ∷ 55 ∷ 56 ∷ 57 ∷ 58 ∷ 59 ∷ 60
    ∷ 61 ∷ 64 ∷ 64 ∷ 64 ∷ 64 ∷ 64 ∷ 64 ∷ 64 ∷ 0 ∷ 1 ∷ 2 ∷ 3 ∷ 4 ∷ 5 ∷ 6 ∷ 7 ∷ 8 ∷ 9 ∷ 10 ∷ 11 ∷ 12
    ∷ 13 ∷ 14 ∷ 15 ∷ 16 ∷ 17 ∷ 18 ∷ 19 ∷ 20 ∷ 21 ∷ 22 ∷ 23 ∷ 24 ∷ 25 ∷ 64 ∷ 64 ∷ 64 ∷ 64 ∷ 64 ∷ 64
    ∷ 26 ∷ 27 ∷ 28 ∷ 29 ∷ 30 ∷ 31 ∷ 32 ∷ 33 ∷ 34 ∷ 35 ∷ 36 ∷ 37 ∷ 38 ∷ 39 ∷ 40 ∷ 41 ∷ 42 ∷ 43 ∷ 44
    ∷ 45 ∷ 46 ∷ 47 ∷ 48 ∷ 49 ∷ 50 ∷ 51 ∷ 64 ∷ 64 ∷ 64 ∷ 64 ∷ 64 ∷ 64 ∷ 64 ∷ 64 ∷ 64 ∷ 64 ∷ 64 ∷ 64
    ∷ 64 ∷ 64 ∷ 64 ∷ 64 ∷ 64 ∷ 64 ∷ 64 ∷ 64 ∷ 64 ∷ 64 ∷ 64 ∷ 64 ∷ 64 ∷ 64 ∷ 64 ∷ 64 ∷ 64 ∷ 64 ∷ 64
    ∷ 64 ∷ 64 ∷ 64 ∷ 64 ∷ 64 ∷ 64 ∷ 64 ∷ 64 ∷ 64 ∷ 64 ∷ 64 ∷ 64 ∷ 64 ∷ 64 ∷ 64 ∷ 64 ∷ 64 ∷ 64 ∷ 64
    ∷ 64 ∷ 64 ∷ 64 ∷ 64 ∷ 64 ∷ 64 ∷ 64 ∷ 64 ∷ 64 ∷ 64 ∷ 64 ∷ 64 ∷ 64 ∷ 64 ∷ 64 ∷ 64 ∷ 64 ∷ 64 ∷ 64
    ∷ 64 ∷ 64 ∷ 64 ∷ 64 ∷ 64 ∷ 64 ∷ 64 ∷ 64 ∷ 64 ∷ 64 ∷ 64 ∷ 64 ∷ 64 ∷ 64 ∷ 64 ∷ 64 ∷ 64 ∷ 64 ∷ 64
    ∷ 64 ∷ 64 ∷ 64 ∷ 64 ∷ 64 ∷ 64 ∷ 64 ∷ 64 ∷ 64 ∷ 64 ∷ 64 ∷ 64 ∷ 64 ∷ 64 ∷ 64 ∷ 64 ∷ 64 ∷ 64 ∷ 64
    ∷ 64 ∷ 64 ∷ 64 ∷ 64 ∷ 64 ∷ 64 ∷ 64 ∷ 64 ∷ 64 ∷ 64 ∷ 64 ∷ 64 ∷ 64 ∷ 64 ∷ 64 ∷ 64 ∷ 64 ∷ 64 ∷ 64
    ∷ 64 ∷ 64 ∷ 64 ∷ 64 ∷ 64 ∷ 64 ∷ 64 ∷ []

unfoldable pub letter : ℕ → ℕ
letter d = get_or alphabet d 0

unfoldable pub digit : ℕ → Option ℕ
digit c = if get_or decode_table c 64 == 64 then none else some (get_or decode_table c 64)

-- `=`
abbrev pub pad : ℕ
pad = 61

unfoldable pub is_pad : List ℕ → ℕ → Bool
is_pad rest i = get_or rest i 0 == pad

unfoldable pub ends_at : List ℕ → ℕ → Bool
unfolding digit
ends_at rest i = elim (digit (get_or rest i 0)) [ none ↦ true | some d ↦ false ]

-- The `mode` of the loops.
pub data Mode : Type 0 where
  m0 : Mode
  m1 : Mode
  m2 : Mode
  m3 : Mode

-- The loop of the encoder, on `mode` and `left`, and what follows it.
unfoldable pub encode_loop : Mode → ℕ → List ℕ → List ℕ
unfolding letter
encode_loop m0 left [] = []
encode_loop m1 left [] = letter left ∷ pad ∷ pad ∷ []
encode_loop _ left [] = letter left ∷ pad ∷ []
encode_loop m0 left (b ∷ bs) = letter (b / 4) ∷ encode_loop m1 (b % 4 * 16) bs
encode_loop m1 left (b ∷ bs) = letter (left + b / 16) ∷ encode_loop m2 (b % 16 * 4) bs
encode_loop _ left (b ∷ bs) = letter (left + b / 64) ∷ letter (b % 64) ∷ encode_loop m0 left bs

unfoldable pub encode : List ℕ → List ℕ
unfolding encode_loop
encode = encode_loop m0 0

-- One round of the decoder in a mode: the next mode, what is left, and the byte put out before the
-- later ones.
unfoldable pub next_left : Mode → ℕ → ℕ → ℕ
next_left m0 left d = d
next_left m1 left d = d % 16
next_left m2 left d = d % 4
next_left _ left d = left

unfoldable pub emit : Mode → ℕ → ℕ → List ℕ → List ℕ
emit m0 left d out = out
emit m1 left d out = (left * 4 + d / 16) ∷ out
emit m2 left d out = (left * 16 + d / 4) ∷ out
emit _ left d out = (left * 64 + d) ∷ out

unfoldable pub next_mode : Mode → Mode
next_mode m0 = m1
next_mode m1 = m2
next_mode m2 = m3
next_mode m3 = m0

-- The loop of the decoder: the bytes, the mode and what is left at its end, and the unread text.
unfoldable pub decode_loop : Mode → ℕ → List ℕ → List ℕ × Mode × ℕ × List ℕ
unfolding digit next_left emit next_mode
decode_loop m left [] = ([], m, left, [])
decode_loop m left (c ∷ cs) = elim (digit c) [
  | none ↦ ([], m, left, c ∷ cs)
  | some d ↦
      let r = decode_loop (next_mode m) (next_left m left d) cs in
      (emit m left d r.0, r.1, r.2, r.3)
]

-- What `*pfInvalid` becomes.
unfoldable pub is_invalid : Mode → ℕ → List ℕ → Bool
unfolding is_pad ends_at
is_invalid m0 left rest = false
is_invalid m1 left rest = true
is_invalid m2 left rest =
    not (left == 0) || not (is_pad rest 0) || not (is_pad rest 1) || not (ends_at rest 2)
is_invalid _ left rest = not (left == 0) || not (is_pad rest 0) || not (ends_at rest 1)

unfoldable pub decode : List ℕ → List ℕ × Bool
unfolding decode_loop is_invalid
decode text = let r = decode_loop m0 0 text in (r.0, is_invalid r.1 r.2 r.3)
