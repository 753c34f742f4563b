-- ===== src/Core/Coins/Format/Mask.antt =====
-- core.h, CCoins: the mask bytes of Serialize, and the loop of Unserialize.
use mathlib.Core.Bool.{◌&&◌, Bool, false, not, true}
use mathlib.Core.List.{append_assoc, append-nil, flatten}
use native.Mathlib.Decide.{dec_le}
use tri_tip.Core.Coins.Format.{any_set, bits_of, calc_mask_from, groups_of, mask_byte, read_mask}
use tri_tip.Core.TxInUndo.{to_nat}
use tri_tip.Prelude.{
  [], ◌∷◌, List, drop, if◌then◌else◌, length, map, some, take, zero, suc, ℕ, ◌==◌, ◌+◌, ◌++◌, ◌-◌,
  ◌≤◌, ◌<◌, ◌≡◌, arith, refl, ap, ◌∙◌, replicate, length-take, length-drop, take-append-drop,
}
use tri_tip.Prelude.Equality.{list_eq, list_eq_sound}

all_bits : ℕ → (List Bool → Bool) → Bool
all_bits zero p = p []
all_bits (suc n) p = p [] && (all_bits n (λ l. p (true ∷ l)) && all_bits n (λ l. p (false ∷ l)))

all_bits_sound :
    (n : ℕ) (p : List Bool → Bool) (l : List Bool) → length l ≤ n → all_bits n p ≡ true → p l ≡ true
unfolding all_bits
all_bits_sound zero p [] le h = h
all_bits_sound zero p (b ∷ l) le h = absurd (omega arith)
all_bits_sound (suc n) p [] le h = ground arith
all_bits_sound (suc n) p (true ∷ l) le h =
    all_bits_sound n (λ l. p (true ∷ l)) l (omega arith) (ground arith)
all_bits_sound (suc n) p (false ∷ l) le h =
    all_bits_sound n (λ l. p (false ∷ l)) l (omega arith) (ground arith)

abbrev bit_eq : Bool → Bool → Bool
bit_eq true b = b
bit_eq false b = not b

-- A group filled up to eight bits.
abbrev pub pad : List Bool → List Bool
pad g = g ++ replicate (8 - length g) false

abbrev reads_back : List Bool → Bool
reads_back g =
    list_eq bit_eq (bits_of (mask_byte g)) (pad g) && bit_eq (mask_byte g == 0) (not (any_set g))

reads_back_table : all_bits 8 reads_back ≡ true
unfolding all_bits bits_of mask_byte any_set
reads_back_table = refl

bit_eq_sound : (a b : Bool) → bit_eq a b ≡ true → a ≡ b
bit_eq_sound a b h = ground arith

reads_back_group : (g : List Bool) → length g ≤ 8 → reads_back g ≡ true
reads_back_group g le = all_bits_sound 8 reads_back g le reads_back_table

bits_of-mask_byte : (g : List Bool) → length g ≤ 8 → bits_of (mask_byte g) ≡ pad g
bits_of-mask_byte g le =
    list_eq_sound bit_eq (bits_of (mask_byte g)) (pad g) bit_eq_sound
      (ground (arith, reads_back_group g le))

mask_byte-zero : (g : List Bool) → length g ≤ 8 → (mask_byte g == 0) ≡ not (any_set g)
mask_byte-zero g le =
    bit_eq_sound (mask_byte g == 0) (not (any_set g)) (ground (arith, reads_back_group g le))

-- The number of groups with a bit set.
unfoldable pub nonzero : List (List Bool) → ℕ
nonzero [] = 0
nonzero (g ∷ gs) = to_nat (any_set g) + nonzero gs

-- Every group has at most eight bits, and the last has one set.
abbrev pub EndsSet : List (List Bool) → Type 0
EndsSet [] = Unit {0}
EndsSet (g ∷ []) = (length g ≤ 8) × (any_set g ≡ true)
EndsSet (g ∷ h ∷ gs) = (length g ≤ 8) × EndsSet (h ∷ gs)

calc_mask_from-EndsSet :
    (b last n : ℕ) (g : List Bool) (gs : List (List Bool))
    → EndsSet (g ∷ gs)
    → calc_mask_from b (g ∷ gs) (last, n) ≡ (b + length (g ∷ gs), n + nonzero (g ∷ gs))
unfolding calc_mask_from nonzero
calc_mask_from-EndsSet b last n g [] e = ground arith
calc_mask_from-EndsSet b last n g (h ∷ gs) e = ground (
  arith,
  calc_mask_from-EndsSet (b + 1) (b + 1) (n + 1) h gs e.1,
  calc_mask_from-EndsSet (b + 1) last n h gs e.1,
)

pub nonzero-pos : (g : List Bool) (gs : List (List Bool)) → EndsSet (g ∷ gs) → 0 < nonzero (g ∷ gs)
unfolding nonzero
nonzero-pos g [] e = ground arith
nonzero-pos g (h ∷ gs) e = ground (arith, nonzero-pos h gs e.1)

-- The mask size is the number of groups, and the mask code counts those with a bit set.
pub calc_mask_size-EndsSet :
    (gs : List (List Bool)) → EndsSet gs → calc_mask_from 0 gs (0, 0) ≡ (length gs, nonzero gs)
unfolding nonzero calc_mask_from
calc_mask_size-EndsSet [] e = refl
calc_mask_size-EndsSet (g ∷ gs) e = calc_mask_from-EndsSet 0 0 0 g gs e ∙ ground arith

read_mask-mask_byte :
    (k rest : ℕ) (g : List Bool) (s : List ℕ) (avail : List Bool)
    → length g ≤ 8
    → 0 < k
    → k ≡ to_nat (any_set g) + rest
    → read_mask k (mask_byte g ∷ s) avail ≡ read_mask rest s (avail ++ pad g)
unfolding read_mask
read_mask-mask_byte zero rest g s avail le lt e = absurd (omega arith)
read_mask-mask_byte (suc j) rest g s avail le lt e =
    λ i. read_mask (left i) s (avail ++ bits_of-mask_byte g le i)
  where
    left : (if mask_byte g == 0 then suc j else j) ≡ rest
    left = ground (arith, mask_byte-zero g le)

pub read_mask-groups :
    (gs : List (List Bool)) (s : List ℕ) (avail : List Bool)
    → EndsSet gs
    → read_mask (nonzero gs) (map mask_byte gs ++ s) avail ≡ some (avail ++ flatten (map pad gs), s)
unfolding read_mask nonzero flatten
read_mask-groups [] s avail e = rw append-nil
read_mask-groups (g ∷ []) s avail e =
    read_mask-mask_byte (to_nat (any_set g) + 0) 0 g s avail e.0 (nonzero-pos g [] e) (omega arith)
    ∙ rw append-nil
read_mask-groups (g ∷ h ∷ gs) s avail e =
    read_mask-mask_byte _ (nonzero (h ∷ gs)) g _ avail e.0 (nonzero-pos g (h ∷ gs) e) (omega arith)
    ∙ read_mask-groups (h ∷ gs) s (avail ++ pad g) e.1
    ∙ rw append_assoc

-- The last bit is set.
abbrev pub EndsTrue : List Bool → Type 0
EndsTrue [] = Unit {0}
EndsTrue (b ∷ []) = b ≡ true
EndsTrue (b ∷ c ∷ l) = EndsTrue (c ∷ l)

any_set-EndsTrue : (b : Bool) (l : List Bool) → EndsTrue (b ∷ l) → any_set (b ∷ l) ≡ true
unfolding any_set
any_set-EndsTrue b [] e = ground arith
any_set-EndsTrue b (c ∷ l) e = ground (arith, any_set-EndsTrue c l e)

pub EndsTrue-drop : (n : ℕ) (l : List Bool) → EndsTrue l → EndsTrue (drop n l)
EndsTrue-drop zero l e = e
EndsTrue-drop (suc n) [] e = tt
EndsTrue-drop (suc zero) (b ∷ []) e = tt
EndsTrue-drop (suc (suc n)) (b ∷ []) e = tt
EndsTrue-drop (suc n) (b ∷ c ∷ l) e = EndsTrue-drop n (c ∷ l) e

drop-eq-nil {ℓ} : {A : Type ℓ} (n : ℕ) (l : List A) → length l ≤ n → drop n l ≡ []
drop-eq-nil zero [] le = refl
drop-eq-nil zero (x ∷ l) le = absurd (omega arith)
drop-eq-nil (suc n) [] le = refl
drop-eq-nil (suc n) (x ∷ l) le = drop-eq-nil n l (omega arith)

pub take-eq_self {ℓ} : {A : Type ℓ} (n : ℕ) (l : List A) → length l ≤ n → take n l ≡ l
take-eq_self zero [] le = refl
take-eq_self zero (x ∷ l) le = absurd (omega arith)
take-eq_self (suc n) [] le = refl
take-eq_self (suc n) (x ∷ l) le = ap (◌∷◌ x) (take-eq_self n l (omega arith))

EndsSet-cons :
    (f : ℕ) (g r : List Bool)
    → length g ≤ 8
    → length r ≤ f
    → EndsSet (groups_of f r)
    → (r ≡ [] → any_set g ≡ true)
    → EndsSet (g ∷ groups_of f r)
unfolding groups_of
EndsSet-cons zero g [] le lr e h = (le, h refl)
EndsSet-cons zero g (c ∷ r) le lr e h = absurd (omega arith)
EndsSet-cons (suc f) g [] le lr e h = (le, h refl)
EndsSet-cons (suc f) g (c ∷ r) le lr e h = (le, e)

pub groups_of-EndsSet :
    (f : ℕ) (l : List Bool) → length l ≤ f → EndsTrue l → EndsSet (groups_of f l)
unfolding groups_of
groups_of-EndsSet zero l le e = tt
groups_of-EndsSet (suc f) [] le e = tt
groups_of-EndsSet (suc f) (b ∷ l) le e =
    EndsSet-cons f (take 8 (b ∷ l)) (drop 8 (b ∷ l)) (omega (arith, length-take 8 (b ∷ l)))
      (omega (arith, length-drop 8 (b ∷ l)))
      (groups_of-EndsSet f (drop 8 (b ∷ l)) (omega (arith, length-drop 8 (b ∷ l)))
        (EndsTrue-drop 8 (b ∷ l) e))
      (λ none_left.
        rw (take-eq_self 8 (b ∷ l) (omega (arith, length-drop 8 (b ∷ l), ap length none_left)))
          (any_set-EndsTrue b l e))

groups_of-nil : (f : ℕ) → groups_of f [] ≡ []
unfolding groups_of
groups_of-nil zero = refl
groups_of-nil (suc f) = refl

pad-take :
    (f : ℕ) (l rest : List Bool)
    → rest ≡ flatten (map pad (groups_of f (drop 8 l)))
    → ((k : ℕ) × (rest ≡ drop 8 l ++ replicate k false))
    → (k : ℕ) × (pad (take 8 l) ++ rest ≡ l ++ replicate k false)
unfolding flatten
pad-take f l rest e (k, h) = elim (dec_le 8 (length l)) [
  | yes long ↦
      let full : 8 - length (take 8 l) ≡ 0 = omega (arith, length-take 8 l) in
      (
        k,
        rw (full, append-nil, h, ← append_assoc (take 8 l) (drop 8 l) (replicate k false))
            (rw (take-append-drop 8 l)),
      )
  | no short ↦ (
    8 - length l,
    rw (take-eq_self 8 l (omega arith), e, drop-eq-nil 8 l (omega arith), groups_of-nil f)
        (rw append-nil),
  )
]

-- The groups, filled up, are the bits and some more that are not set.
pub flatten-groups_of :
    (f : ℕ) (l : List Bool)
    → length l ≤ f
    → (k : ℕ) × (flatten (map pad (groups_of f l)) ≡ l ++ replicate k false)
unfolding groups_of flatten
flatten-groups_of zero [] le = (0, refl)
flatten-groups_of zero (b ∷ l) le = absurd (omega arith)
flatten-groups_of (suc f) [] le = (0, refl)
flatten-groups_of (suc f) (b ∷ l) le =
    pad-take f (b ∷ l) _ refl
      (flatten-groups_of f (drop 8 (b ∷ l)) (omega (arith, length-drop 8 (b ∷ l))))
