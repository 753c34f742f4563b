-- ===== src/Messages/Commands.antt =====
-- protocol.cpp: the command in a header.
use mathlib.Core.Bool.{false, true}
use tri_tip.Prelude.{
  ap, arith, get_or, length, List, refl, suc, take, zero, ℕ, ◌++◌, ◌+◌, ◌-◌, ◌<◌, ◌==◌, ◌≡◌, ◌∙◌,
  ◌∷◌, ◌≤◌, [], replicate,
}
use tri_tip.Messages.{
  Header, all_zeros, is_valid_command, string_length, copy_string, get_command, new_header,
  is_valid,
}
use tri_tip.Prelude.Equality.{bytes_eq_refl}

-- From the space to the tilde
unfoldable pub Printable : List ℕ → Type 0
Printable [] = Unit {0}
Printable (b ∷ bs) = (32 ≤ b) × (b ≤ 126) × Printable bs

copy_string-append :
    (n : ℕ) (command : List ℕ) (k : ℕ)
    → Printable command
    → length command + k ≡ n
    → copy_string n command ≡ command ++ replicate k 0
unfolding copy_string Printable
copy_string-append zero [] zero p h = refl
copy_string-append zero [] (suc k) p h = ground (arith, h)
copy_string-append zero (b ∷ bs) k p h = ground (arith, h)
copy_string-append (suc n) [] zero p h = ground (arith, h)
copy_string-append (suc n) [] (suc k) p h =
    ap (λ bytes. 0 ∷ bytes) (copy_string-append n [] k tt (omega (arith, h)))
copy_string-append (suc n) (b ∷ bs) k (l, u, p) h =
    ground (arith, copy_string-append n bs k p (omega (arith, h)))

all_zeros-replicate : (k : ℕ) → all_zeros (replicate k 0) ≡ true
unfolding all_zeros
all_zeros-replicate zero = refl
all_zeros-replicate (suc k) = all_zeros-replicate k

is_valid_command-append :
    (command : List ℕ) (k : ℕ)
    → Printable command
    → is_valid_command (command ++ replicate k 0) ≡ true
unfolding is_valid_command Printable
is_valid_command-append [] zero p = refl
is_valid_command-append [] (suc k) p = all_zeros-replicate k
is_valid_command-append (b ∷ bs) k (l, u, p) = ground (arith, is_valid_command-append bs k p)

string_length-append :
    (command : List ℕ) (k : ℕ)
    → Printable command
    → string_length (command ++ replicate k 0) ≡ length command
unfolding string_length Printable
string_length-append [] zero p = refl
string_length-append [] (suc k) p = refl
string_length-append (b ∷ bs) k (l, u, p) = ground (arith, string_length-append bs k p)

take-append : (xs ys : List ℕ) → take (length xs) (xs ++ ys) ≡ xs
take-append [] ys = refl
take-append (x ∷ xs) ys = ap (λ zs. x ∷ zs) (take-append xs ys)

get_or-zeros : (xs : List ℕ) (k i : ℕ) → length xs ≤ i → get_or (xs ++ replicate k 0) i 0 ≡ 0
get_or-zeros [] zero i h = refl
get_or-zeros [] (suc k) zero h = refl
get_or-zeros [] (suc k) (suc i) h = get_or-zeros [] k i (omega arith)
get_or-zeros (x ∷ xs) k zero h = ground arith
get_or-zeros (x ∷ xs) k (suc i) h = get_or-zeros xs k i (omega arith)

get_or-Printable :
    (xs ys : List ℕ) (i : ℕ) → Printable xs → i < length xs → 0 < get_or (xs ++ ys) i 0
unfolding Printable
get_or-Printable [] ys i p h = ground arith
get_or-Printable (x ∷ xs) ys zero (l, u, p) h = omega arith
get_or-Printable (x ∷ xs) ys (suc i) (l, u, p) h = get_or-Printable xs ys i p (omega arith)

get_command-append :
    (h : Header) (command : List ℕ) (k : ℕ)
    → Printable command
    → length command + k ≡ 12
    → h.command ≡ command ++ replicate k 0
    → get_command h ≡ command
unfolding get_command
get_command-append h command zero p l e = rw e (
    rw
      (not_zero (get_or (command ++ []) 11 0) (get_or-Printable command [] 11 p (omega (arith, l))))
      (ap (λ n. take n (command ++ [])) {x = 12} {y = length command} (omega (arith, l))
        ∙ take-append command []))
  where
    not_zero : (b : ℕ) → 0 < b → (b == 0) ≡ false
    not_zero b h = ground arith
get_command-append h command (suc k) p l e = rw e (
    rw (get_or-zeros command (suc k) 11 (omega (arith, l)))
      (rw (string_length-append command (suc k) p) (take-append command _)))

-- A header that is made for a command of at most twelve printable bytes and for a size within the limit is
-- valid, and its command is the one that it was made for.
pub get_command-new_header :
    (start : List ℕ) (max_size : ℕ) (command : List ℕ) (size : ℕ)
    → Printable command
    → length command ≤ 12
    → size ≤ max_size
    → (is_valid start max_size (new_header start max_size command size) ≡ true)
      × (get_command (new_header start max_size command size) ≡ command)
unfolding is_valid new_header
get_command-new_header start max_size command size p l s = (
  ground (arith, bytes_eq_refl start, copied, is_valid_command-append command k p),
  get_command-append _ command k p (omega arith) copied,
)
  where
    k : ℕ
    k = 12 - length command

    copied : copy_string 12 command ≡ command ++ replicate k 0
    copied = copy_string-append 12 command k p (omega (arith, l))
