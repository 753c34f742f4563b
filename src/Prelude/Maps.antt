-- ===== src/Prelude/Maps.antt =====
-- Maps keyed by numbers, as association lists with distinct keys. What a program does not read, the
-- order of a `std::map`, is forgotten: a new entry goes to the end.
use tri_tip.Prelude.{Bool-cases, refl}
use Prim.{⊥}
use tri_tip.Prelude.{◌⊎◌, inl, inr}
use tri_tip.Prelude.{
  ℕ, List, [], ◌∷◌, ◌≡◌, Option, none, some, ◌==◌, if◌then◌else◌, arith, Bool, true, false,
}

module _ {ℓ} {A : Type ℓ} where
  abbrev pub find : ℕ → List (ℕ × A) → Option A
  find k [] = none
  find k ((j, a) ∷ m) = if j == k then some a else find k m

  -- `map::insert`, which leaves an entry that is there
  abbrev pub insert : ℕ → A → List (ℕ × A) → List (ℕ × A)
  insert k a [] = (k, a) ∷ []
  insert k a ((j, b) ∷ m) = if j == k then (j, b) ∷ m else (j, b) ∷ insert k a m

  abbrev pub has : ℕ → List (ℕ × A) → Bool
  has k [] = false
  has k ((j, a) ∷ m) = if j == k then true else has k m

  -- Every entry, under its key
  abbrev pub All : (ℕ → A → Type 0) → List (ℕ × A) → Type 0
  All P [] = Unit {0}
  All P ((k, a) ∷ m) = P k a × All P m

  -- `m[k] = a`, which overwrites an entry that is there
  abbrev pub assign : ℕ → A → List (ℕ × A) → List (ℕ × A)
  assign k a [] = (k, a) ∷ []
  assign k a ((j, b) ∷ m) = if j == k then (j, a) ∷ m else (j, b) ∷ assign k a m

  abbrev pub remove : ℕ → List (ℕ × A) → List (ℕ × A)
  remove k [] = []
  remove k ((j, a) ∷ m) = if j == k then remove k m else (j, a) ∷ remove k m

  pub find-assign :
      (k j : ℕ) (a : A) (m : List (ℕ × A))
      → find k (assign j a m) ≡ (if j == k then some a else find k m)
  find-assign k j a [] = ground arith
  find-assign k j a ((i, b) ∷ m) = ground (arith, find-assign k j a m)

  pub find-remove :
      (k j : ℕ) (m : List (ℕ × A)) → find k (remove j m) ≡ (if j == k then none else find k m)
  find-remove k j [] = ground arith
  find-remove k j ((i, b) ∷ m) = ground (arith, find-remove k j m)

  pub find-insert :
      (k j : ℕ) (a : A) (m : List (ℕ × A))
      → find k (insert j a m)
        ≡ elim (find k m) [ some b ↦ some b | none ↦ if j == k then some a else none ]
  find-insert k j a [] = ground arith
  find-insert k j a ((i, b) ∷ m) = ground (arith, find-insert k j a m)

  pub insert-All :
      (P : ℕ → A → Type 0) (k : ℕ) (a : A) (m : List (ℕ × A))
      → P k a
      → All P m
      → All P (insert k a m)
  insert-All P k a [] p ps = (p, ps)
  insert-All P k a ((j, b) ∷ m) p (q, ps) = step (j == k) (insert-All P k a m p ps)
    where
      step :
          (t : Bool)
          → All P (insert k a m)
          → All P (if t then (j, b) ∷ m else (j, b) ∷ insert k a m)
      step true _ = (q, ps)
      step false ih = (q, ih)

  pub All-map :
      {P Q : ℕ → A → Type 0}
      → ((k : ℕ) (a : A) → P k a → Q k a)
      → (m : List (ℕ × A)) → All P m
      → All Q m
  All-map f [] ps = tt
  All-map f ((k, a) ∷ m) (p, ps) = (f k a p, All-map f m ps)

  pub All-find :
      (P : ℕ → A → Type 0) (k : ℕ) (a : A) (m : List (ℕ × A)) → All P m → find k m ≡ some a → P k a
  All-find P k a [] ps e = ground arith
  All-find P k a ((j, b) ∷ m) (p, ps) e = ground (arith, All-find P k a m ps)

module _ {A : Type 0} where
  -- The entry stands in the map.
  abbrev pub In : ℕ → A → List (ℕ × A) → Type 0
  In k a [] = ⊥
  In k a ((j, b) ∷ m) = ((k ≡ j) × (a ≡ b)) ⊎ In k a m

  pub In-insert :
      (k j : ℕ) (a b : A) (m : List (ℕ × A))
      → In k a (insert j b m)
      → ((k ≡ j) × (a ≡ b)) ⊎ In k a m
  In-insert k j a b [] i = i
  In-insert k j a b ((i, c) ∷ m) h = step (i == j) (In-insert k j a b m) h
    where
      step :
          (t : Bool)
          → (In k a (insert j b m) → ((k ≡ j) × (a ≡ b)) ⊎ In k a m)
          → In k a (if t then (i, c) ∷ m else (i, c) ∷ insert j b m)
          → ((k ≡ j) × (a ≡ b)) ⊎ In k a ((i, c) ∷ m)
      step true ih h = inr h
      step false ih (inl h) = inr (inl h)
      step false ih (inr h) = elim (ih h) [ inl e ↦ inl e | inr e ↦ inr (inr e) ]

  pub In-new : (k : ℕ) (a : A) (m : List (ℕ × A)) → In k a (insert k a m) ⊎ ((b : A) × In k b m)
  In-new k a [] = inl (inl (refl, refl))
  In-new k a ((i, c) ∷ m) = step (Bool-cases (i == k)) (In-new k a m)
    where
      step :
          ((i == k) ≡ true) ⊎ ((i == k) ≡ false)
          → In k a (insert k a m) ⊎ ((b : A) × In k b m)
          → In k a (insert k a ((i, c) ∷ m)) ⊎ ((b : A) × In k b ((i, c) ∷ m))
      step (inl e) ih = inr (c, inl (ground (arith, e), refl))
      step (inr e) (inl n) = inl (rw e (inr n))
      step (inr e) (inr (b, n)) = inr (b, inr n)

  pub insert-In : (k j : ℕ) (a b : A) (m : List (ℕ × A)) → In k a m → In k a (insert j b m)
  insert-In k j a b [] i = elim i [ ]
  insert-In k j a b ((i, c) ∷ m) h = step (i == j) (insert-In k j a b m) h
    where
      step :
          (t : Bool)
          → (In k a m → In k a (insert j b m))
          → In k a ((i, c) ∷ m)
          → In k a (if t then (i, c) ∷ m else (i, c) ∷ insert j b m)
      step true ih h = h
      step false ih (inl h) = inl h
      step false ih (inr h) = inr (ih h)
