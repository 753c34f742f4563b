-- ===== src/Locked/Pages.antt =====
-- allocators.h: the count of a page.
use tri_tip.Locked.{unlock_found}
use tri_tip.Locked.{lock_found}
use mathlib.Core.Bool.{false}
use tri_tip.Prelude.{
  ap, arith, if◌then◌else◌, inl, inr, List, ltb, none, Option, refl, some, ℕ, ◌+◌, ◌-◌, ◌<◌, ◌==◌,
  ◌≡◌, ◌∙◌, ◌∷◌, ◌≢◌, ◌⊎◌, [],
}
use tri_tip.Prelude.Maps.{find, find-insert}
use tri_tip.Locked.{Manager, put, erase, set_resident, lock_page, unlock_page}

-- No entry for a count of zero
unfoldable pub entry : ℕ → Option ℕ
entry n = if n == 0 then none else some n

unfoldable pub is : ℕ → ℕ → ℕ
is page x = if page == x then 1 else 0

-- The histogram has the counts of the pages, and the pages that are counted are the locked ones.
unfoldable pub Counts : (ℕ → ℕ) → Manager → Type 0
unfolding entry
Counts c s = (x : ℕ) → (find x s.histogram ≡ entry (c x)) × (s.resident x ≡ ltb 0 (c x))

find-put :
    (k n x m : ℕ) (h : List (ℕ × ℕ))
    → find k h ≡ some m
    → find x (put k n h) ≡ (if k == x then some n else find x h)
unfolding put
find-put k n x m [] e = ground (arith, e)
find-put k n x m ((j, i) ∷ h) e = ground (arith, find-put k n x m h)

find-erase : (k x : ℕ) (h : List (ℕ × ℕ)) → find x (erase k h) ≡ (if k == x then none else find x h)
unfolding erase
find-erase k x [] = ground arith
find-erase k x ((j, i) ∷ h) = ground (arith, find-erase k x h)

-- Equal pages have equal counts.
same_count : (c : ℕ → ℕ) (p x : ℕ) → (p ≡ x) ⊎ (p ≢ x) → (c p ≡ c x) ⊎ (p ≢ x)
same_count c p x (inl e) = inl (ap c e)
same_count c p x (inr n) = inr n

lock_found-Counts :
    (c : ℕ → ℕ) (page : ℕ) (s : Manager) (o : Option ℕ)
    → find page s.histogram ≡ o
    → Counts c s
    → Counts (λ x. c x + is page x) (lock_found o page s)
unfolding Counts lock_found entry is set_resident
lock_found-Counts c page s none e k x = elim (same_count c page x (omega arith)) [
  | inl h ↦ (
    ground (arith, find-insert x page 1 s.histogram, (k x).0, (k page).0, e, h),
    ground (arith, (k x).1, (k page).0, e, h),
  )
  | inr h ↦
      (ground (arith, find-insert x page 1 s.histogram, (k x).0, h), ground (arith, (k x).1, h))
]
lock_found-Counts c page s (some n) e k x = elim (same_count c page x (omega arith)) [
  | inl h ↦ (
    ground (arith, find-put page (n + 1) x n s.histogram e, (k x).0, (k page).0, e, h),
    ground (arith, (k x).1, (k page).0, e, h),
  )
  | inr h ↦ (
    ground (arith, find-put page (n + 1) x n s.histogram e, (k x).0, h),
    ground (arith, (k x).1, h),
  )
]

pub lock_page-Counts :
    (c : ℕ → ℕ) (page : ℕ) (s : Manager)
    → Counts c s
    → Counts (λ x. c x + is page x) (lock_page page s)
unfolding lock_page
lock_page-Counts c page s k = lock_found-Counts c page s (find page s.histogram) refl k

erased-Counts :
    (c : ℕ → ℕ) (page : ℕ) (s : Manager)
    → c page ≡ 0
    → Counts (λ x. c x + is page x) s
    → Counts c (record {
      histogram = erase page s.histogram;
      resident = set_resident page false s.resident;
    })
unfolding Counts entry is set_resident
erased-Counts c page s z k x = elim (same_count c page x (omega arith)) [
  | inl h ↦
      (ground (arith, find-erase page x s.histogram, (k x).0, z, h), ground (arith, (k x).1, z, h))
  | inr h ↦ (ground (arith, find-erase page x s.histogram, (k x).0, h), ground (arith, (k x).1, h))
]

lowered-Counts :
    (c : ℕ → ℕ) (page : ℕ) (s : Manager)
    → 0 < c page
    → find page s.histogram ≡ some (c page + 1)
    → Counts (λ x. c x + is page x) s
    → Counts c (record s { histogram = put page (c page + 1 - 1) s.histogram })
unfolding Counts entry is
lowered-Counts c page s z e k x = elim (same_count c page x (omega arith)) [
  | inl h ↦ (
    ground (arith, find-put page (c page + 1 - 1) x (c page + 1) s.histogram e, (k x).0, z, h),
    ground (arith, (k x).1, z, h),
  )
  | inr h ↦ (
    ground (arith, find-put page (c page + 1 - 1) x (c page + 1) s.histogram e, (k x).0, h),
    ground (arith, (k x).1, h),
  )
]

counted :
    (page : ℕ) (s : Manager) (c : ℕ → ℕ)
    → Counts (λ x. c x + is page x) s
    → find page s.histogram ≡ some (c page + 1)
unfolding Counts entry is
counted page s c k = ground (arith, (k page).0)

-- A page that is counted once more than `c` can be unlocked.
pub unlock_page-Counts :
    (c : ℕ → ℕ) (page : ℕ) (s : Manager)
    → Counts (λ x. c x + is page x) s
    → (t : Manager) × (unlock_page page s ≡ some t) × Counts c t
unfolding unlock_page unlock_found
unlock_page-Counts c page s k = elim (zero_or (c page)) [
  | inl z ↦ (
    record { histogram = erase page s.histogram; resident = set_resident page false s.resident },
    ap (λ o. unlock_found o page s) there ∙ ground (arith, z),
    erased-Counts c page s z k,
  )
  | inr z ↦ (
    record s { histogram = put page (c page + 1 - 1) s.histogram },
    ap (λ o. unlock_found o page s) there ∙ ground (arith, z),
    lowered-Counts c page s z there k,
  )
]
  where
    zero_or : (n : ℕ) → (n ≡ 0) ⊎ (0 < n)
    zero_or n = omega arith

    there : find page s.histogram ≡ some (c page + 1)
    there = counted page s c k
