-- ===== src/Strings.antt =====
-- util.cpp: ParseString and WildcardMatch, on strings as the lists of their characters, which for a C
-- string are those before its zero.
pub mod Wildcards
pub mod Pieces
use mathlib.Core.Bool.{◌&&◌, ◌||◌, Bool, false, not, true}
use tri_tip.Prelude.{
  ap, arith, Bool-cases, drop, get_or, if◌then◌else◌, inl, inr, leb, length, length-append, List,
  lt→ltb, ltb, ltb→lt, map, none, Option, Option-cases, refl, set, length-set, some, suc, sym, take,
  zero, ℕ, ◌%◌, ◌*◌, ◌++◌, ◌+◌, ◌-◌, ◌/◌, ◌<◌, ◌==◌, ◌≡◌, ◌^◌, ◌∙◌, ◌∷◌, ◌≢◌, ◌≤◌, ◌⊎◌, [],
  replicate,
}

unfoldable pub is_end : List ℕ → Bool
is_end [] = true
is_end (c ∷ cs) = false

-- The case of `*`: the rest of the mask matches here or further on.
unfoldable pub star_match : (List ℕ → Bool) → List ℕ → Bool
star_match rest [] = rest []
star_match rest (c ∷ cs) = rest (c ∷ cs) || star_match rest cs

unfoldable pub char_match : ℕ → (List ℕ → Bool) → List ℕ → Bool
char_match m rest [] = false
char_match m rest (c ∷ cs) = if m == 63 then rest cs else if c == m then rest cs else false

-- `*` is 42 and `?` is 63.
unfoldable pub wildcard_match : List ℕ → List ℕ → Bool
unfolding is_end star_match char_match
wildcard_match s [] = is_end s
wildcard_match s (m ∷ mask) =
    if m == 42
    then star_match (λ t. wildcard_match t mask) s
    else char_match m (λ t. wildcard_match t mask) s

-- The first piece gets a character in front.
unfoldable pub onto_first : ℕ → List (List ℕ) → List (List ℕ)
onto_first a [] = (a ∷ []) ∷ []
onto_first a (piece ∷ pieces) = (a ∷ piece) ∷ pieces

-- The loop of ParseString from `i1` on: the pieces between the separators.
unfoldable pub parse_loop : ℕ → List ℕ → List (List ℕ)
unfolding onto_first
parse_loop c [] = [] ∷ []
parse_loop c (a ∷ s) = if a == c then [] ∷ parse_loop c s else onto_first a (parse_loop c s)

-- `v` after the call
unfoldable pub parse_string : List ℕ → ℕ → List (List ℕ) → List (List ℕ)
unfolding parse_loop
parse_string [] c v = v
parse_string (a ∷ s) c v = v ++ parse_loop c (a ∷ s)
