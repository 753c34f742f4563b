-- ===== src/Base32.antt =====
-- util.cpp: EncodeBase32 and DecodeBase32, on the lists of the bytes. The parts that `|` joins have no
-- bit in common, so that it adds. A string ends where the list does, and reads as 0 there.
pub mod RoundTrip
use mathlib.Core.Bool.{◌&&◌, ◌||◌, Bool, false, not, true}
use tri_tip.Prelude.{
  ap, arith, Bool-cases, drop, get_or, if◌then◌else◌, inl, inr, leb, length, length-append, List,
  lt→ltb, ltb, ltb→lt, map, none, Option, Option-cases, refl, set, length-set, some, suc, sym, take,
  zero, ℕ, ◌%◌, ◌*◌, ◌++◌, ◌+◌, ◌-◌, ◌/◌, ◌<◌, ◌==◌, ◌≡◌, ◌^◌, ◌∙◌, ◌∷◌, ◌≢◌, ◌≤◌, ◌⊎◌, [],
  replicate,
}

abbrev pub alphabet : List ℕ
alphabet =
    97 ∷ 98 ∷ 99 ∷ 100 ∷ 101 ∷ 102 ∷ 103 ∷ 104 ∷ 105 ∷ 106 ∷ 107 ∷ 108 ∷ 109 ∷ 110 ∷ 111 ∷ 112 ∷ 113
    ∷ 114 ∷ 115 ∷ 116 ∷ 117 ∷ 118 ∷ 119 ∷ 120 ∷ 121 ∷ 122 ∷ 50 ∷ 51 ∷ 52 ∷ 53 ∷ 54 ∷ 55 ∷ []

-- The table of the decoder, with 32 in place of -1.
abbrev pub decode_table : List ℕ
decode_table =
    32 ∷ 32 ∷ 32 ∷ 32 ∷ 32 ∷ 32 ∷ 32 ∷ 32 ∷ 32 ∷ 32 ∷ 32 ∷ 32 ∷ 32 ∷ 32 ∷ 32 ∷ 32 ∷ 32 ∷ 32 ∷ 32
    ∷ 32 ∷ 32 ∷ 32 ∷ 32 ∷ 32 ∷ 32 ∷ 32 ∷ 32 ∷ 32 ∷ 32 ∷ 32 ∷ 32 ∷ 32 ∷ 32 ∷ 32 ∷ 32 ∷ 32 ∷ 32 ∷ 32
    ∷ 32 ∷ 32 ∷ 32 ∷ 32 ∷ 32 ∷ 32 ∷ 32 ∷ 32 ∷ 32 ∷ 32 ∷ 32 ∷ 32 ∷ 26 ∷ 27 ∷ 28 ∷ 29 ∷ 30 ∷ 31 ∷ 32
    ∷ 32 ∷ 32 ∷ 32 ∷ 32 ∷ 32 ∷ 32 ∷ 32 ∷ 32 ∷ 0 ∷ 1 ∷ 2 ∷ 3 ∷ 4 ∷ 5 ∷ 6 ∷ 7 ∷ 8 ∷ 9 ∷ 10 ∷ 11 ∷ 12
    ∷ 13 ∷ 14 ∷ 15 ∷ 16 ∷ 17 ∷ 18 ∷ 19 ∷ 20 ∷ 21 ∷ 22 ∷ 23 ∷ 24 ∷ 25 ∷ 32 ∷ 32 ∷ 32 ∷ 32 ∷ 32 ∷ 32
    ∷ 0 ∷ 1 ∷ 2 ∷ 3 ∷ 4 ∷ 5 ∷ 6 ∷ 7 ∷ 8 ∷ 9 ∷ 10 ∷ 11 ∷ 12 ∷ 13 ∷ 14 ∷ 15 ∷ 16 ∷ 17 ∷ 18 ∷ 19 ∷ 20
    ∷ 21 ∷ 22 ∷ 23 ∷ 24 ∷ 25 ∷ 32 ∷ 32 ∷ 32 ∷ 32 ∷ 32 ∷ 32 ∷ 32 ∷ 32 ∷ 32 ∷ 32 ∷ 32 ∷ 32 ∷ 32 ∷ 32
    ∷ 32 ∷ 32 ∷ 32 ∷ 32 ∷ 32 ∷ 32 ∷ 32 ∷ 32 ∷ 32 ∷ 32 ∷ 32 ∷ 32 ∷ 32 ∷ 32 ∷ 32 ∷ 32 ∷ 32 ∷ 32 ∷ 32
    ∷ 32 ∷ 32 ∷ 32 ∷ 32 ∷ 32 ∷ 32 ∷ 32 ∷ 32 ∷ 32 ∷ 32 ∷ 32 ∷ 32 ∷ 32 ∷ 32 ∷ 32 ∷ 32 ∷ 32 ∷ 32 ∷ 32
    ∷ 32 ∷ 32 ∷ 32 ∷ 32 ∷ 32 ∷ 32 ∷ 32 ∷ 32 ∷ 32 ∷ 32 ∷ 32 ∷ 32 ∷ 32 ∷ 32 ∷ 32 ∷ 32 ∷ 32 ∷ 32 ∷ 32
    ∷ 32 ∷ 32 ∷ 32 ∷ 32 ∷ 32 ∷ 32 ∷ 32 ∷ 32 ∷ 32 ∷ 32 ∷ 32 ∷ 32 ∷ 32 ∷ 32 ∷ 32 ∷ 32 ∷ 32 ∷ 32 ∷ 32
    ∷ 32 ∷ 32 ∷ 32 ∷ 32 ∷ 32 ∷ 32 ∷ 32 ∷ 32 ∷ 32 ∷ 32 ∷ 32 ∷ 32 ∷ 32 ∷ 32 ∷ 32 ∷ 32 ∷ 32 ∷ 32 ∷ 32
    ∷ 32 ∷ 32 ∷ 32 ∷ 32 ∷ 32 ∷ 32 ∷ 32 ∷ 32 ∷ 32 ∷ 32 ∷ 32 ∷ 32 ∷ 32 ∷ 32 ∷ 32 ∷ 32 ∷ 32 ∷ 32 ∷ 32
    ∷ 32 ∷ 32 ∷ 32 ∷ 32 ∷ 32 ∷ []

unfoldable pub letter : ℕ → ℕ
letter d = get_or alphabet d 0

unfoldable pub digit : ℕ → Option ℕ
digit c = if get_or decode_table c 32 == 32 then none else some (get_or decode_table c 32)

-- `=`
abbrev pub pad : ℕ
pad = 61

unfoldable pub is_pad : List ℕ → ℕ → Bool
is_pad rest i = get_or rest i 0 == pad

unfoldable pub ends_at : List ℕ → ℕ → Bool
unfolding digit
ends_at rest i = elim (digit (get_or rest i 0)) [ none ↦ true | some d ↦ false ]

-- The `mode` of the loops.
pub data Mode : Type 0 where
  m0 : Mode
  m1 : Mode
  m2 : Mode
  m3 : Mode
  m4 : Mode
  m5 : Mode
  m6 : Mode
  m7 : Mode

-- The letters after the loop: what is left, and nPadding pad characters.
unfoldable pub padding : Mode → List ℕ
padding m1 = replicate 6 pad
padding m2 = replicate 4 pad
padding m3 = replicate 3 pad
padding m4 = replicate 1 pad
padding _ = []

-- The loop of the encoder, on `mode` and `left`, and what follows it.
unfoldable pub encode_loop : Mode → ℕ → List ℕ → List ℕ
unfolding letter padding
encode_loop m0 left [] = []
encode_loop mode left [] = letter left ∷ padding mode
encode_loop m0 left (b ∷ bs) = letter (b / 8) ∷ encode_loop m1 (b % 8 * 4) bs
encode_loop m1 left (b ∷ bs) =
    letter (left + b / 64) ∷ letter (b / 2 % 32) ∷ encode_loop m2 (b % 2 * 16) bs
encode_loop m2 left (b ∷ bs) = letter (left + b / 16) ∷ encode_loop m3 (b % 16 * 2) bs
encode_loop m3 left (b ∷ bs) =
    letter (left + b / 128) ∷ letter (b / 4 % 32) ∷ encode_loop m4 (b % 4 * 8) bs
encode_loop _ left (b ∷ bs) = letter (left + b / 32) ∷ letter (b % 32) ∷ encode_loop m0 left bs

unfoldable pub encode : List ℕ → List ℕ
unfolding encode_loop
encode = encode_loop m0 0

-- One round of the decoder in a mode: the next mode, what is left, and the byte put out before the
-- later ones.
unfoldable pub next_left : Mode → ℕ → ℕ → ℕ
next_left m0 left d = d
next_left m1 left d = d % 4
next_left m2 left d = left * 32 + d
next_left m3 left d = d % 16
next_left m4 left d = d % 2
next_left m5 left d = left * 32 + d
next_left m6 left d = d % 8
next_left _ left d = left

unfoldable pub emit : Mode → ℕ → ℕ → List ℕ → List ℕ
emit m0 left d out = out
emit m1 left d out = (left * 8 + d / 4) ∷ out
emit m2 left d out = out
emit m3 left d out = (left * 2 + d / 16) ∷ out
emit m4 left d out = (left * 16 + d / 2) ∷ out
emit m5 left d out = out
emit m6 left d out = (left * 4 + d / 8) ∷ out
emit _ left d out = (left * 32 + d) ∷ out

unfoldable pub next_mode : Mode → Mode
next_mode m0 = m1
next_mode m1 = m2
next_mode m2 = m3
next_mode m3 = m4
next_mode m4 = m5
next_mode m5 = m6
next_mode m6 = m7
next_mode m7 = m0

-- The loop of the decoder: the bytes, the mode and what is left at its end, and the unread text.
unfoldable pub decode_loop : Mode → ℕ → List ℕ → List ℕ × Mode × ℕ × List ℕ
unfolding digit next_left emit next_mode
decode_loop m left [] = ([], m, left, [])
decode_loop m left (c ∷ cs) = elim (digit c) [
  | none ↦ ([], m, left, c ∷ cs)
  | some d ↦
      let r = decode_loop (next_mode m) (next_left m left d) cs in
      (emit m left d r.0, r.1, r.2, r.3)
]

-- The text from `p` has the pad characters asked for and ends after them.
unfoldable pub is_padded : ℕ → ℕ → List ℕ → Bool
unfolding is_pad ends_at
is_padded zero i rest = ends_at rest i
is_padded (suc n) i rest = is_pad rest i && is_padded n (i + 1) rest

-- What `*pfInvalid` becomes.
unfoldable pub is_invalid : Mode → ℕ → List ℕ → Bool
unfolding is_padded
is_invalid m0 left rest = false
is_invalid m1 left rest = true
is_invalid m2 left rest = not (left == 0) || not (is_padded 6 0 rest)
is_invalid m3 left rest = true
is_invalid m4 left rest = not (left == 0) || not (is_padded 4 0 rest)
is_invalid m5 left rest = not (left == 0) || not (is_padded 3 0 rest)
is_invalid m6 left rest = true
is_invalid _ left rest = not (left == 0) || not (is_padded 1 0 rest)

unfoldable pub decode : List ℕ → List ℕ × Bool
unfolding decode_loop is_invalid
decode text = let r = decode_loop m0 0 text in (r.0, is_invalid r.1 r.2 r.3)
