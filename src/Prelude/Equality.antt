-- ===== src/Prelude/Equality.antt =====
-- Boolean equality of lists and of signed numbers.
use mathlib.Core.Bool.{◌&&◌, Bool, true, false}
use mathlib.Core.List.{List, [], ◌∷◌}
use mathlib.Core.Path.{◌≡◌, refl}
use native.Mathlib.Omega.{arith}
use tri_tip.Prelude.{ℕ, ◌==◌, ==_iff}
use tri_tip.Prelude.Int.{ℤ, pos, negsuc}

abbrev pub list_eq {ℓ} : {A : Type ℓ} → (A → A → Bool) → List A → List A → Bool
list_eq eq [] [] = true
list_eq eq (x ∷ xs) (y ∷ ys) = eq x y && list_eq eq xs ys
list_eq eq _ _ = false

pub list_eq_sound {ℓ} :
    {A : Type ℓ} (eq : A → A → Bool) (xs ys : List A)
    → ((x y : A) → eq x y ≡ true → x ≡ y)
    → list_eq eq xs ys ≡ true
    → xs ≡ ys
list_eq_sound eq [] [] sound h = refl
list_eq_sound eq [] (y ∷ ys) sound h = ground arith
list_eq_sound eq (x ∷ xs) [] sound h = ground arith
list_eq_sound eq (x ∷ xs) (y ∷ ys) sound h = ground (arith, sound x y, list_eq_sound eq xs ys sound)

pub list_eq_refl {ℓ} :
    {A : Type ℓ} (eq : A → A → Bool) (xs : List A)
    → ((x : A) → eq x x ≡ true)
    → list_eq eq xs xs ≡ true
list_eq_refl eq [] same = refl
list_eq_refl eq (x ∷ xs) same = ground (arith, same x, list_eq_refl eq xs same)

-- Equality of bytes and of other vectors of numbers.
abbrev pub bytes_eq : List ℕ → List ℕ → Bool
bytes_eq = list_eq (λ a b. a == b)

pub bytes_eq_sound : (xs ys : List ℕ) → bytes_eq xs ys ≡ true → xs ≡ ys
bytes_eq_sound xs ys h = list_eq_sound (λ a b. a == b) xs ys (λ a b. (==_iff a b).0) h

pub bytes_eq_refl : (xs : List ℕ) → bytes_eq xs xs ≡ true
bytes_eq_refl xs = list_eq_refl (λ a b. a == b) xs (λ a. (==_iff a a).1 refl)

abbrev pub eq_ℤ : ℤ → ℤ → Bool
eq_ℤ (pos a) (pos b) = a == b
eq_ℤ (negsuc a) (negsuc b) = a == b
eq_ℤ _ _ = false
