-- ===== src/Locked/Ranges.antt =====
-- allocators.h: LockRange, UnlockRange and the counts of pages.
use mathlib.Core.Path.{subst}
use tri_tip.Prelude.{leb→le}
use mathlib.Core.Bool.{false, true}
use tri_tip.Prelude.{
  ap, arith, Bool-cases, if◌then◌else◌, inl, inr, leb, List, refl, some, suc, zero, ℕ, ◌%◌, ◌++◌,
  ◌+◌, ◌-◌, ◌<◌, ◌==◌, ◌≡◌, ◌^◌, ◌∙◌, ◌∷◌, ◌≤◌, [],
}
use tri_tip.Locked.{
  Manager, lock_page, page_of, lock_loop, unlock_loop, fuel_for, lock_range, unlock_range,
}
use tri_tip.Prelude.{◌>>=◌}
use tri_tip.Locked.Pages.{Counts, is, lock_page-Counts, unlock_page-Counts}

pub record Range : Type 0 where
  pub address : ℕ
  pub size : ℕ

unfoldable pub occurrences : ℕ → List ℕ → ℕ
unfolding is
occurrences x [] = 0
occurrences x (page ∷ pages) = is page x + occurrences x pages

Counts-ext : (c d : ℕ → ℕ) (s : Manager) → ((x : ℕ) → c x ≡ d x) → Counts c s → Counts d s
Counts-ext c d s e k = subst (λ f. Counts f s) (λ i x. e x i) k

module _ (page_size : ℕ) where
  unfoldable pub pages_from : ℕ → ℕ → ℕ → List ℕ
  pages_from zero page end_page = []
  pages_from (suc fuel) page end_page =
      let rest = pages_from fuel (page + page_size) end_page in
      if leb page end_page then page ∷ rest else []

  -- The pages from that of the first byte of a range to that of the last
  unfoldable pub range_pages : Range → List ℕ
  unfolding pages_from page_of fuel_for
  range_pages r =
      let start_page = page_of page_size r.address in
      let end_page = page_of page_size (r.address + r.size - 1) in
      let pages = pages_from (fuel_for start_page end_page) start_page end_page in
      if r.size == 0 then [] else pages

  -- How many of the ranges a page belongs to
  unfoldable pub page_count : List Range → ℕ → ℕ
  unfolding range_pages occurrences
  page_count [] x = 0
  page_count (r ∷ rs) x = occurrences x (range_pages r) + page_count rs x

  pub range_pages-empty : (r : Range) → (r.size == 0) ≡ true → range_pages r ≡ []
  unfolding range_pages
  range_pages-empty r e = rw e

  pub range_pages-loop :
      (r : Range)
      → (r.size == 0) ≡ false
      → range_pages r
        ≡ pages_from
            (fuel_for (page_of page_size r.address) (page_of page_size (r.address + r.size - 1)))
            (page_of page_size r.address)
            (page_of page_size (r.address + r.size - 1))
  unfolding range_pages
  range_pages-loop r e = rw e

  -- The range ends before the last page of the address space.
  unfoldable pub Fits : Range → Type 0
  Fits r = r.address + r.size + page_size ≤ 2 ^ 64

  module _ (positive : 0 < page_size) where
    lock_loop-Counts :
        (fuel page end_page : ℕ) (c : ℕ → ℕ) (s : Manager)
        → end_page + page_size < 2 ^ 64
        → 0 < fuel
        → end_page + 1 < page + fuel
        → Counts c s
        → (t : Manager) × (lock_loop page_size fuel page end_page s ≡ some t)
          × Counts (λ x. c x + occurrences x (pages_from fuel page end_page)) t
    unfolding lock_loop pages_from occurrences
    lock_loop-Counts zero page end_page c s b p f k = ground arith
    lock_loop-Counts (suc fuel) page end_page c s b p f k = elim (Bool-cases (leb page end_page)) [
      | inr e ↦ rw e (s, refl, Counts-ext c _ s (λ x. omega arith) k)
      | inl e ↦
          let ih =
            lock_loop-Counts fuel (page + page_size) end_page _ (lock_page page s) b
              (ground (arith, e)) (omega (arith, positive)) (lock_page-Counts c page s k) in
          rw e (
            ih.0,
            ap (λ n. lock_loop page_size fuel n end_page (lock_page page s)) (no_wrap e) ∙ ih.1,
            Counts-ext _ _ ih.0 (λ x. omega arith) ih.2,
          )
    ]
      where
        no_wrap : leb page end_page ≡ true → (page + page_size) % 2 ^ 64 ≡ page + page_size
        no_wrap e = omega (arith, leb→le page end_page e)

    unlock_loop-Counts :
        (fuel page end_page : ℕ) (c : ℕ → ℕ) (s : Manager)
        → end_page + page_size < 2 ^ 64
        → 0 < fuel
        → end_page + 1 < page + fuel
        → Counts (λ x. c x + occurrences x (pages_from fuel page end_page)) s
        → (t : Manager) × (unlock_loop page_size fuel page end_page s ≡ some t) × Counts c t
    unfolding unlock_loop pages_from occurrences
    unlock_loop-Counts zero page end_page c s b p f k = ground arith
    unlock_loop-Counts (suc fuel) page end_page c s b p f k =
        elim (Bool-cases (leb page end_page)) [
          | inr e ↦ rw e (s, refl, Counts-ext _ c s (λ x. ground (arith, e)) k)
          | inl e ↦
              let u =
                unlock_page-Counts
                  (λ x. c x + occurrences x (pages_from fuel (page + page_size) end_page)) page s
                  (Counts-ext _ _ s (λ x. ground (arith, e)) k) in
              let ih =
                unlock_loop-Counts fuel (page + page_size) end_page c u.0 b (ground (arith, e))
                  (omega (arith, positive)) u.2 in
              rw e (
                ih.0,
                ap
                      (λ o. o >>= (λ t.
                        unlock_loop page_size fuel ((page + page_size) % 2 ^ 64) end_page t))
                      u.1
                    ∙ ap (λ n. unlock_loop page_size fuel n end_page u.0) (no_wrap e)
                    ∙ ih.1,
                ih.2,
              )
        ]
      where
        no_wrap : leb page end_page ≡ true → (page + page_size) % 2 ^ 64 ≡ page + page_size
        no_wrap e = omega (arith, leb→le page end_page e)

    page_of_le : (a : ℕ) → page_of page_size a ≤ a
    unfolding page_of
    page_of_le a = omega arith

    pub lock_range-Counts :
        (r : Range) (live : List Range) (s : Manager)
        → Fits r
        → Counts (page_count live) s
        → (t : Manager) × (lock_range page_size r.address r.size s ≡ some t)
          × Counts (page_count (r ∷ live)) t
    unfolding lock_range page_count occurrences Fits fuel_for
    lock_range-Counts r live s b k = elim (Bool-cases (r.size == 0)) [
      | inl e ↦ rw e (
        s,
        refl,
        Counts-ext _ _ s (λ x. omega (arith, ap (occurrences x) (range_pages-empty r e))) k,
      )
      | inr e ↦
          let l =
            lock_loop-Counts
              (fuel_for (page_of page_size r.address) (page_of page_size (r.address + r.size - 1)))
              (page_of page_size r.address) (page_of page_size (r.address + r.size - 1))
              (page_count live) s (ground (arith, page_of_le (r.address + r.size - 1), e, b))
              (omega arith) (omega arith) k in
          rw e (
            l.0,
            l.1,
            Counts-ext _ _ l.0 (λ x. omega (arith, ap (occurrences x) (range_pages-loop r e))) l.2,
          )
    ]

    page_count-append :
        (before after : List Range) (r : Range) (x : ℕ)
        → page_count (before ++ r ∷ after) x
          ≡ page_count (before ++ after) x + occurrences x (range_pages r)
    unfolding page_count
    page_count-append [] after r x = omega arith
    page_count-append (a ∷ before) after r x = omega (arith, page_count-append before after r x)

    pub unlock_range-Counts :
        (r : Range) (before after : List Range) (s : Manager)
        → Fits r
        → Counts (page_count (before ++ r ∷ after)) s
        → (t : Manager) × (unlock_range page_size r.address r.size s ≡ some t)
          × Counts (page_count (before ++ after)) t
    unfolding unlock_range occurrences Fits fuel_for
    unlock_range-Counts r before after s b k = elim (Bool-cases (r.size == 0)) [
      | inl e ↦ rw e (
        s,
        refl,
        Counts-ext _ _ s
            (λ x. omega (
              arith,
              page_count-append before after r x,
              ap (occurrences x) (range_pages-empty r e),
            ))
            k,
      )
      | inr e ↦
          let l =
            unlock_loop-Counts
              (fuel_for (page_of page_size r.address) (page_of page_size (r.address + r.size - 1)))
              (page_of page_size r.address) (page_of page_size (r.address + r.size - 1))
              (page_count (before ++ after)) s
              (ground (arith, page_of_le (r.address + r.size - 1), e, b)) (omega arith)
              (omega arith)
              (Counts-ext _ _ s
                (λ x. omega (
                  arith,
                  page_count-append before after r x,
                  ap (occurrences x) (range_pages-loop r e),
                ))
                k) in
          rw e (l.0, l.1, l.2)
    ]
