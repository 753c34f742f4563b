-- ===== src/Net/Buffers.antt =====
-- net.cpp: the buffers that readHeader and readData fill.
use tri_tip.Prelude.{length-replicate}
use tri_tip.Prelude.{length-take}
use tri_tip.Prelude.{
  ap, arith, drop, length, length-append, List, refl, set, suc, take, zero, ℕ, ◌++◌, ◌+◌, ◌≡◌, ◌∙◌,
  ◌∷◌, [], replicate,
}
use tri_tip.Net.{copy_to, resize}

-- `set` and `copy_to` behind the first place
copy_to-cons :
    (x : ℕ) (buf : List ℕ) (pos : ℕ) (bytes : List ℕ)
    → copy_to (x ∷ buf) (suc pos) bytes ≡ x ∷ copy_to buf pos bytes
unfolding copy_to
copy_to-cons x buf pos [] = refl
copy_to-cons x buf pos (b ∷ bs) =
    ap (λ k. copy_to (x ∷ set buf pos b) k bs) (omega arith)
    ∙ copy_to-cons x (set buf pos b) (pos + 1) bs

-- A buffer that is filled holds the bytes.
pub copy_to-all : (buf bytes : List ℕ) → length buf ≡ length bytes → copy_to buf 0 bytes ≡ bytes
unfolding copy_to
copy_to-all [] [] e = refl
copy_to-all (x ∷ buf) [] e = ground (arith, e)
copy_to-all [] (b ∷ bs) e = ground (arith, e)
copy_to-all (x ∷ buf) (b ∷ bs) e =
    copy_to-cons b buf 0 bs ∙ ap (λ bytes. b ∷ bytes) (copy_to-all buf bs (omega (arith, e)))

pub take-whole : (n : ℕ) (xs : List ℕ) → length xs ≡ n → take n xs ≡ xs
take-whole zero [] e = refl
take-whole zero (x ∷ xs) e = ground (arith, e)
take-whole (suc n) [] e = refl
take-whole (suc n) (x ∷ xs) e = ap (λ ys. x ∷ ys) (take-whole n xs (omega (arith, e)))

pub drop-length : (xs : List ℕ) → drop (length xs) xs ≡ []
drop-length [] = refl
drop-length (x ∷ xs) = drop-length xs

pub empty_of_length : (xs : List ℕ) → length xs ≡ 0 → xs ≡ []
empty_of_length [] e = refl
empty_of_length (x ∷ xs) e = ground (arith, e)

pub length-resize : (n : ℕ) (xs : List ℕ) → length (resize n xs) ≡ n
unfolding resize
length-resize n xs = omega (
  arith,
  length-take n (xs ++ replicate n 0),
  length-append xs (replicate n 0),
  length-replicate {A = ℕ} n 0,
)
