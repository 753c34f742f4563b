-- ===== src/Tests/StringTests.antt =====
-- util.cpp: ParseString and WildcardMatch at concrete inputs.
use mathlib.Core.Bool.{true}
use tri_tip.Prelude.{arith, List, refl, ℕ, ◌++◌, ◌≡◌, ◌∷◌, []}
use tri_tip.Hex
use tri_tip.Hex.RoundTrip.{parse_hex-print, print}
use tri_tip.Strings
use tri_tip.Strings.Pieces.{parse_string-join, join, AllWithout}
use tri_tip.Strings.Wildcards.{wildcard_match-Matches, Matches}

-- "a.b" and "a*?"
abbrev dotted : List ℕ
dotted = 97 ∷ 46 ∷ 98 ∷ []

abbrev mask : List ℕ
mask = 97 ∷ 42 ∷ 63 ∷ []

matched : Strings.wildcard_match dotted mask ≡ true
unfolding Strings.wildcard_match
matched = refl

wildcard_match-Matches_example :
    (Strings.wildcard_match dotted mask ≡ true → Matches dotted mask)
    × (Matches dotted mask → Strings.wildcard_match dotted mask ≡ true)
wildcard_match-Matches_example = wildcard_match-Matches dotted mask

abbrev no_pieces : List (List ℕ)
no_pieces = []

pieces : Strings.parse_string dotted 46 no_pieces ≡ (97 ∷ []) ∷ (98 ∷ []) ∷ []
unfolding Strings.parse_string
pieces = refl

parse_string-join_example :
    (Strings.parse_string [] 46 no_pieces ≡ no_pieces)
    × ((a : ℕ)
        → (ps : List (List ℕ)) × (Strings.parse_string (a ∷ dotted) 46 no_pieces ≡ no_pieces ++ ps)
          × (join 46 ps ≡ a ∷ dotted)
          × AllWithout 46 ps)
parse_string-join_example = parse_string-join dotted 46 no_pieces

-- "ff0a"
printed : print (255 ∷ 10 ∷ []) ≡ 102 ∷ 102 ∷ 48 ∷ 97 ∷ []
printed = refl

parse_hex-print_example :
    (Hex.is_hex (print (255 ∷ 10 ∷ [])) ≡ true)
    × (Hex.parse_hex (print (255 ∷ 10 ∷ [])) ≡ 255 ∷ 10 ∷ [])
parse_hex-print_example = parse_hex-print 255 (10 ∷ []) (omega arith, (omega arith, tt))
