-- ===== src/Locked/Touched.antt =====
-- allocators.h: the pages that the bytes of a range stand on.
use mathlib.Core.Bool.{◌&&◌, Bool, false, true}
use tri_tip.Prelude.{
  ap, arith, Bool-cases, if◌then◌else◌, inl, inr, leb, List, ltb, refl, suc, sym, zero, ℕ, ◌%◌, ◌+◌,
  ◌-◌, ◌/◌, ◌<◌, ◌==◌, ◌≡◌, ◌∙◌, ◌∷◌, ◌≤◌, ◌⊎◌, [],
}
use native.Mathlib.Nat.{
  mod-add-mod, mod-eq_of_lt, mod-lt, add-mod_right, mod-add-div, mul-mod_right,
}
use tri_tip.Prelude.{==_iff}
use tri_tip.Locked.{page_of, fuel_for}
use tri_tip.Locked.Pages.{is}
use tri_tip.Locked.Ranges.{
  Range, occurrences, pages_from, range_pages, page_count, range_pages-empty, range_pages-loop,
}

module _ (page_size : ℕ) where
  -- Whether a page starts at `x` and one of its bytes is a byte of the range: the bytes of the page
  -- are those from `x` to `x + page_size - 1`, the bytes of the range those from its address on.
  unfoldable pub touches : Range → ℕ → Bool
  touches r x =
      x % page_size == 0
      && ltb 0 r.size
      && ltb x (r.address + r.size)
      && ltb r.address (x + page_size)

  -- How many of the ranges have bytes on a page
  unfoldable pub covers : List Range → ℕ → ℕ
  unfolding touches
  covers [] x = 0
  covers (r ∷ rs) x = (if touches r x then 1 else 0) + covers rs x

  module _ (positive : 0 < page_size) where
    -- Between two starts of pages there is a page.
    gap : (a b : ℕ) → a % page_size ≡ 0 → b % page_size ≡ 0 → a < b → a + page_size ≤ b
    gap a b ea eb l = elim (within_or (b - a) page_size) [
      | inl h ↦ omega (arith, l, h)
      | inr h ↦ absurd (omega (arith, l, rest h))
    ]
      where
        within_or : (d m : ℕ) → (m ≤ d) ⊎ (d < m)
        within_or d m = omega arith

        from_zero : (d : ℕ) → d ≡ 0 + d
        from_zero d = omega arith

        back : a + (b - a) ≡ b
        back = omega (arith, l)

        rest : b - a < page_size → b - a ≡ 0
        rest h =
            sym (mod-eq_of_lt h)
            ∙ ap (λ z. z % page_size) (from_zero (b - a))
            ∙ ap (λ z. (z + (b - a)) % page_size) (sym ea)
            ∙ mod-add-mod a page_size (b - a)
            ∙ ap (λ z. z % page_size) back
            ∙ eb

    next_start : (a : ℕ) → a % page_size ≡ 0 → (a + page_size) % page_size ≡ 0
    next_start a e = add-mod_right a page_size ∙ e

    page_of-start : (a : ℕ) → page_of page_size a % page_size ≡ 0
    unfolding page_of
    page_of-start a =
        ap (λ z. z % page_size) (omega (arith, mod-add-div a page_size) ∙ refl)
        ∙ mul-mod_right page_size (a / page_size)

    page_of_le : (a : ℕ) → page_of page_size a ≤ a
    unfolding page_of
    page_of_le a = omega arith

    page_of_lt : (a : ℕ) → a < page_of page_size a + page_size
    unfolding page_of
    page_of_lt a = omega (arith, mod-lt a positive, positive)

    occurrences-pages_from :
        (fuel page end_page x : ℕ)
        → page % page_size ≡ 0
        → end_page + 1 < page + fuel
        → occurrences x (pages_from page_size fuel page end_page)
          ≡ (if x % page_size == 0 && leb page x && leb x end_page then 1 else 0)
    unfolding occurrences pages_from is
    occurrences-pages_from zero page end_page x e h = ground (arith, h)
    occurrences-pages_from (suc fuel) page end_page x e h = ground (
      arith,
      e,
      h,
      same_start,
      gap page x e,
      occurrences-pages_from fuel (page + page_size) end_page x (next_start page e)
          (omega (arith, h, positive)),
    )
      where
        same_start : page ≡ x → x % page_size ≡ 0
        same_start q = ap (λ z. z % page_size) (sym q) ∙ e

    page_of_between :
        (r : Range) (x : ℕ)
        → (r.size == 0) ≡ false
        → x % page_size ≡ 0
        → (leb (page_of page_size r.address) x
            && leb x (page_of page_size (r.address + r.size - 1)))
          ≡ (ltb x (r.address + r.size) && ltb r.address (x + page_size))
    page_of_between r x e m =
        between (page_of page_size r.address) (page_of page_size (r.address + r.size - 1))
          (page_of_le r.address) (page_of_lt r.address) (page_of_le (r.address + r.size - 1))
          (page_of_lt (r.address + r.size - 1))
          (gap x (page_of page_size r.address) m (page_of-start r.address))
          (gap (page_of page_size (r.address + r.size - 1)) x
            (page_of-start (r.address + r.size - 1)) m)
      where
        between :
            (p q : ℕ)
            → p ≤ r.address
            → r.address < p + page_size
            → q ≤ r.address + r.size - 1
            → r.address + r.size - 1 < q + page_size
            → (x < p → x + page_size ≤ p)
            → (q < x → q + page_size ≤ x)
            → (leb p x && leb x q) ≡ (ltb x (r.address + r.size) && ltb r.address (x + page_size))
        between p q a b c d f g = ground (arith, e, a, b, c, d, f, g)

    range_pages-touches :
        (r : Range) (x : ℕ)
        → occurrences x (range_pages page_size r) ≡ (if touches r x then 1 else 0)
    unfolding touches fuel_for occurrences
    range_pages-touches r x = elim (Bool-cases (r.size == 0)) [
      | inl e ↦ ap (occurrences x) (range_pages-empty page_size r e) ∙ empty_touches e
      | inr e ↦
          ap (occurrences x) (range_pages-loop page_size r e)
          ∙ occurrences-pages_from _ _ _ x (page_of-start r.address) (enough e)
          ∙ inside e (Bool-cases (x % page_size == 0))
    ]
      where
        empty_touches : (r.size == 0) ≡ true → occurrences x [] ≡ (if touches r x then 1 else 0)
        empty_touches e = ground (arith, e)

        enough :
            (r.size == 0) ≡ false
            → page_of page_size (r.address + r.size - 1) + 1
              < page_of page_size r.address
                + fuel_for
                    (page_of page_size r.address)
                    (page_of page_size (r.address + r.size - 1))
        enough e = omega arith

        inside :
            (r.size == 0) ≡ false
            → ((x % page_size == 0) ≡ true) ⊎ ((x % page_size == 0) ≡ false)
            → ◌≡◌ {A = ℕ}
                (if x % page_size == 0
                    && leb (page_of page_size r.address) x
                    && leb x (page_of page_size (r.address + r.size - 1))
                  then 1
                  else 0)
                (if touches r x then 1 else 0)
        inside e (inl m) = ground (arith, e, m, page_of_between r x e ((==_iff _ _).0 m))
        inside e (inr m) = ground (arith, m)

    pub page_count-covers : (rs : List Range) (x : ℕ) → page_count page_size rs x ≡ covers rs x
    unfolding page_count covers
    page_count-covers [] x = refl
    page_count-covers (r ∷ rs) x = omega (arith, range_pages-touches r x, page_count-covers rs x)
