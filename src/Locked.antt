-- ===== src/Locked.antt =====
-- allocators.h: LockedPageManagerBase, which counts for each page of memory the ranges that keep it from
-- being swapped out. The system's locks do not stack: `resident` are the pages that are locked.
pub mod Pages
pub mod Ranges
pub mod Touched
pub mod Histories
use tri_tip.Prelude.{◌>>=◌}
use mathlib.Core.Bool.{◌&&◌, ◌||◌, Bool, false, not, true}
use tri_tip.Prelude.{
  ap, arith, Bool-cases, drop, get_or, if◌then◌else◌, inl, inr, leb, length, length-append, List,
  lt→ltb, ltb, ltb→lt, map, none, Option, Option-cases, refl, set, length-set, some, suc, sym, take,
  zero, ℕ, ◌%◌, ◌*◌, ◌++◌, ◌+◌, ◌-◌, ◌/◌, ◌<◌, ◌==◌, ◌≡◌, ◌^◌, ◌∙◌, ◌∷◌, ◌≢◌, ◌≤◌, ◌⊎◌, [],
  replicate,
}
use tri_tip.Prelude.Maps.{find, insert}

pub record Manager : Type 0 where
  pub histogram : List (ℕ × ℕ)
  pub resident : ℕ → Bool

-- `it->second = n` for an entry that is there
unfoldable pub put : ℕ → ℕ → List (ℕ × ℕ) → List (ℕ × ℕ)
put k n [] = []
put k n ((j, m) ∷ h) = let rest = put k n h in if j == k then (j, n) ∷ h else (j, m) ∷ rest

unfoldable pub erase : ℕ → List (ℕ × ℕ) → List (ℕ × ℕ)
erase k [] = []
erase k ((j, m) ∷ h) = let rest = erase k h in if j == k then rest else (j, m) ∷ rest

-- `locker.Lock` and `locker.Unlock`
unfoldable pub set_resident : ℕ → Bool → (ℕ → Bool) → ℕ → Bool
set_resident page b resident x = if page == x then b else resident x

-- The body of the loop of LockRange, after `find`: a new entry, or the count
unfoldable pub lock_found : Option ℕ → ℕ → Manager → Manager
unfolding put set_resident
lock_found none page s = record {
  histogram = insert page 1 s.histogram;
  resident = set_resident page true s.resident;
}
lock_found (some n) page s = record s { histogram = put page (n + 1) s.histogram }

unfoldable pub lock_page : ℕ → Manager → Manager
unfolding lock_found
lock_page page s = lock_found (find page s.histogram) page s

-- The body of the loop of UnlockRange; `none` is a failure of its assertion.
unfoldable pub unlock_found : Option ℕ → ℕ → Manager → Option Manager
unfolding put erase set_resident
unlock_found none page s = none
unlock_found (some n) page s =
    if n - 1 == 0
    then some (record {
      histogram = erase page s.histogram;
      resident = set_resident page false s.resident;
    })
    else some (record s { histogram = put page (n - 1) s.histogram })

unfoldable pub unlock_page : ℕ → Manager → Option Manager
unfolding unlock_found
unlock_page page s = unlock_found (find page s.histogram) page s

-- The loops end before this fuel does.
unfoldable pub fuel_for : ℕ → ℕ → ℕ
fuel_for start_page end_page = end_page - start_page + 2

-- The page size is a power of two, so that `& page_mask` takes off the remainder.
module _ (page_size : ℕ) where
  unfoldable pub page_of : ℕ → ℕ
  page_of address = address - address % page_size

  -- The loops, from a page to the last, on fuel; `none` if that runs out.
  unfoldable pub lock_loop : ℕ → ℕ → ℕ → Manager → Option Manager
  unfolding lock_page
  lock_loop zero page end_page s = none
  lock_loop (suc fuel) page end_page s =
      let rest = lock_loop fuel ((page + page_size) % 2 ^ 64) end_page (lock_page page s) in
      if leb page end_page then rest else some s

  unfoldable pub unlock_loop : ℕ → ℕ → ℕ → Manager → Option Manager
  unfolding unlock_page
  unlock_loop zero page end_page s = none
  unlock_loop (suc fuel) page end_page s =
      let rest =
        unlock_page page s >>= (λ t. unlock_loop fuel ((page + page_size) % 2 ^ 64) end_page t) in
      if leb page end_page then rest else some s

  unfoldable pub lock_range : ℕ → ℕ → Manager → Option Manager
  unfolding lock_loop page_of fuel_for
  lock_range p size s =
      let start_page = page_of p in
      let end_page = page_of (p + size - 1) in
      let locked = lock_loop (fuel_for start_page end_page) start_page end_page s in
      if size == 0 then some s else locked

  unfoldable pub unlock_range : ℕ → ℕ → Manager → Option Manager
  unfolding unlock_loop page_of fuel_for
  unlock_range p size s =
      let start_page = page_of p in
      let end_page = page_of (p + size - 1) in
      let unlocked = unlock_loop (fuel_for start_page end_page) start_page end_page s in
      if size == 0 then some s else unlocked

-- GetLockedPageCount
unfoldable pub locked_page_count : Manager → ℕ
locked_page_count s = length s.histogram
