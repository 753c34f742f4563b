-- ===== src/AddrMan/Consistent.antt =====
-- addrman.cpp: the consistency of the indices.
use tri_tip.Prelude.{
  arith, if◌then◌else◌, length, List, ltb, none, Option, refl, set, some, suc, take, zero, ℕ, ◌++◌,
  ◌<◌, ◌==◌, ◌≡◌, ◌∙◌, ◌∷◌, [],
}
use tri_tip.Prelude.{get_elem?}
use tri_tip.Prelude.Maps.{find}
use tri_tip.AddrMan.{Info, AddrMan}

-- The position that the table gives for a number, and the address
unfoldable pub pos_in : List (ℕ × Info) → ℕ → Option ℕ
pos_in m id = elim (find id m) [ none ↦ none | some info ↦ some info.random_pos ]

unfoldable pub addr_in : List (ℕ × Info) → ℕ → Option ℕ
addr_in m id = elim (find id m) [ none ↦ none | some info ↦ some info.addr ]

-- The vector has each number of the table once, at the position that the table has for it; the map
-- of addresses has exactly the addresses of the table; and the numbers are below the next one.
pub record IsConsistent (s : AddrMan) : Type 0 where
  pub listed : (p id : ℕ) → get_elem? s.random p ≡ some id → pos_in s.map_info id ≡ some p
  pub placed : (id p : ℕ) → pos_in s.map_info id ≡ some p → get_elem? s.random p ≡ some id
  pub named : (id a : ℕ) → addr_in s.map_info id ≡ some a → find a s.map_addr ≡ some id
  pub known : (a id : ℕ) → find a s.map_addr ≡ some id → addr_in s.map_info id ≡ some a
  pub below : (id p : ℕ) → pos_in s.map_info id ≡ some p → id < s.id_count

pub get_elem?-append :
    (xs : List ℕ) (a p : ℕ)
    → get_elem? (xs ++ a ∷ []) p ≡ (if p == length xs then some a else get_elem? xs p)
get_elem?-append [] a zero = refl
get_elem?-append [] a (suc p) = ground arith
get_elem?-append (x ∷ xs) a zero = ground arith
get_elem?-append (x ∷ xs) a (suc p) = get_elem?-append xs a p ∙ ground arith

pub get_elem?-take :
    (n : ℕ) (xs : List ℕ) (p : ℕ)
    → get_elem? (take n xs) p ≡ (if ltb p n then get_elem? xs p else none)
get_elem?-take zero xs p = ground arith
get_elem?-take (suc n) [] p = ground arith
get_elem?-take (suc n) (x ∷ xs) zero = ground arith
get_elem?-take (suc n) (x ∷ xs) (suc p) = get_elem?-take n xs p ∙ ground arith

pub get_elem?-set :
    (xs : List ℕ) (i v p : ℕ)
    → i < length xs
    → get_elem? (set xs i v) p ≡ (if i == p then some v else get_elem? xs p)
get_elem?-set [] i v p h = ground arith
get_elem?-set (x ∷ xs) zero v zero h = refl
get_elem?-set (x ∷ xs) zero v (suc p) h = ground arith
get_elem?-set (x ∷ xs) (suc i) v zero h = ground arith
get_elem?-set (x ∷ xs) (suc i) v (suc p) h = get_elem?-set xs i v p (omega arith) ∙ ground arith

pub get_elem?-length : (xs : List ℕ) (p a : ℕ) → get_elem? xs p ≡ some a → p < length xs
get_elem?-length [] p a e = ground (arith, e)
get_elem?-length (x ∷ xs) zero a e = omega arith
get_elem?-length (x ∷ xs) (suc p) a e = omega (arith, get_elem?-length xs p a e)

pub get_elem?-some : (xs : List ℕ) (p : ℕ) → p < length xs → (a : ℕ) × (get_elem? xs p ≡ some a)
get_elem?-some [] p h = ground arith
get_elem?-some (x ∷ xs) zero h = (x, refl)
get_elem?-some (x ∷ xs) (suc p) h = get_elem?-some xs p (omega arith)
