-- ===== src/Locked/Histories.antt =====
-- allocators.h: LockedPageManager over a history of calls.
use mathlib.Core.Path.{subst}
use mathlib.Core.Bool.{false}
use tri_tip.Prelude.{ap, List, ltb, none, Option, refl, some, sym, ℕ, ◌++◌, ◌<◌, ◌≡◌, ◌∙◌, ◌∷◌, []}
use tri_tip.Locked.{Manager, lock_range, unlock_range}
use tri_tip.Locked.Pages.{Counts}
use tri_tip.Locked.Touched.{covers, page_count-covers}
use tri_tip.Locked.Ranges.{Range, Fits, page_count, lock_range-Counts, unlock_range-Counts}

unfoldable pub no_locks : Manager
no_locks = record { histogram = []; resident = λ x. false }

module _ (page_size : ℕ) where
  -- The states that calls lead to from an empty manager, with the ranges that are locked: each has been
  -- locked once more often than unlocked.
  pub data Reached : List Range → Manager → Type 0 where
    starts : Reached [] no_locks
    locked :
        {live : List Range} {s t : Manager} (r : Range)
        → Fits page_size r
        → Reached live s
        → lock_range page_size r.address r.size s ≡ some t
        → Reached (r ∷ live) t
    unlocked :
        {s t : Manager} (before : List Range) (r : Range) (after : List Range)
        → Fits page_size r
        → Reached (before ++ r ∷ after) s
        → unlock_range page_size r.address r.size s ≡ some t
        → Reached (before ++ after) t

  some_eq : (o : Option Manager) (s t : Manager) → o ≡ some s → o ≡ some t → s ≡ t
  some_eq o s t e f = some_inj (sym e ∙ f)
    where
      some_inj : some s ≡ some t → s ≡ t
      some_inj e = ap (λ o. elim o [ none ↦ s | some m ↦ m ]) e

  module _ (positive : 0 < page_size) where
    Reached-Counts :
        (live : List Range) (s : Manager) → Reached live s → Counts (page_count page_size live) s
    unfolding Counts no_locks page_count
    Reached-Counts live s starts = λ x. (refl, refl)
    Reached-Counts live s (locked {live = live₀} {s = s₀} r f h e) =
        let l = lock_range-Counts page_size positive r live₀ s₀ f (Reached-Counts live₀ s₀ h) in
        subst (Counts (page_count page_size (r ∷ live₀))) (some_eq _ l.0 s l.1 e) l.2
    Reached-Counts live s (unlocked {s = s₀} before r after f h e) =
        let l =
          unlock_range-Counts page_size positive r before after s₀ f
            (Reached-Counts (before ++ r ∷ after) s₀ h) in
        subst (Counts (page_count page_size (before ++ after))) (some_eq _ l.0 s l.1 e) l.2

    -- Whatever ranges have been locked and unlocked, a page is locked in memory exactly when a byte of
    -- one of the ranges that are locked still stands on it; what is no start of a page is not locked. Another range can
    -- be locked, and any of them unlocked: the call returns and no assertion fails. The page size is positive, and no
    -- range reaches the last page of the address space.
    pub resident-covers :
        (live : List Range) (s : Manager)
        → Reached live s
        → ((x : ℕ) → s.resident x ≡ ltb 0 (covers page_size live x))
          × ((r : Range)
              → Fits page_size r
              → (t : Manager) × (lock_range page_size r.address r.size s ≡ some t))
          × ((before after : List Range) (r : Range)
              → Fits page_size r
              → live ≡ before ++ r ∷ after
              → (t : Manager) × (unlock_range page_size r.address r.size s ≡ some t))
    unfolding Counts
    resident-covers live s h =
        let k = Reached-Counts live s h in
        (
          (λ x. (k x).1 ∙ ap (ltb 0) (page_count-covers page_size positive live x)),
          (λ r f. let l = lock_range-Counts page_size positive r live s f k in (l.0, l.1)),
          λ before after r f e.
              let l =
                unlock_range-Counts page_size positive r before after s f
                  (subst (λ rs. Counts (page_count page_size rs) s) e k) in
              (l.0, l.1),
        )
