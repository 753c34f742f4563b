-- ===== src/AddrMan/Tried.antt =====
-- addrman.cpp: SelectTried.
use tri_tip.Prelude.{
  if◌then◌else◌, length, List, ltb, none, Option, set, some, suc, zero, ℕ, ◌+◌, ◌-◌,
}
use tri_tip.Prelude.{get_elem?, ◌>>=◌}
use tri_tip.Prelude.Maps.{find, has}
use tri_tip.AddrMan.{Info}

-- The loop's nOldest with nOldestPos, which are -1 at first, and the bucket
pub record Eviction : Type 0 where
  pub oldest : Option (ℕ × ℕ)
  pub tried : List ℕ

-- nLastSuccess of an entry; an entry that the table lacks is made.
unfoldable pub last_success : List (ℕ × Info) → ℕ → ℕ
last_success m id = elim (find id m) [ none ↦ 0 | some info ↦ info.last_success ]

-- The test, after the exchange, on the number that comes to position `i`; `none` is a failed assertion.
unfoldable pub keep_oldest : List (ℕ × Info) → ℕ → ℕ → Option (ℕ × ℕ) → Option (Option (ℕ × ℕ))
unfolding last_success
keep_oldest m id pos none = some (some (id, pos))
keep_oldest m id pos (some (oldest, oldest_pos)) =
    if has id m
    then some (
        some (
          if ltb (last_success m id) (last_success m oldest)
          then (id, pos)
          else (oldest, oldest_pos)))
    else none

-- The loop, for `count` more positions from `i` on; `random_int` is GetRandInt at each call.
unfoldable pub select_loop : (ℕ → ℕ → ℕ) → List (ℕ × Info) → ℕ → ℕ → Eviction → Option Eviction
unfolding keep_oldest
select_loop random_int m zero i s = some s
select_loop random_int m (suc count) i s =
    let pos = random_int i (length s.tried - i) + i in
    get_elem? s.tried pos >>= (λ id. get_elem? s.tried i >>= (λ other.
      keep_oldest m id pos s.oldest >>= (λ oldest.
        select_loop random_int m count (i + 1)
          (record { oldest = oldest; tried = set (set s.tried pos other) i id }))))

unfoldable pub select_tried : (ℕ → ℕ → ℕ) → List (ℕ × Info) → List ℕ → Option Eviction
unfolding select_loop
select_tried random_int m tried =
    select_loop random_int m (if ltb (length tried) 4 then length tried else 4) 0
      (record { oldest = none; tried = tried })
