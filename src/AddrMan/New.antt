-- ===== src/AddrMan/New.antt =====
-- addrman.cpp: ShrinkNew, which makes place in a bucket of new addresses, and IsTerrible.
use mathlib.Core.Bool.{◌&&◌, ◌||◌, Bool, false, not, true}
use tri_tip.Prelude.{
  if◌then◌else◌, leb, List, ltb, none, Option, some, ℕ, ◌%◌, ◌*◌, ◌+◌, ◌-◌, ◌==◌, ◌^◌, ◌∷◌, [],
}
use tri_tip.Prelude.{◌>>=◌}
use tri_tip.Prelude.Maps.{find, has, assign}
use tri_tip.AddrMan.{Info, AddrMan, remove_entry}

unfoldable pub is_terrible : ℕ → Info → Bool
is_terrible now info =
    if not (info.last_try == 0) && leb now (info.last_try + 60)
    then false
    else if ltb (now + 10 * 60) info.time
    then true
    else if info.time == 0 || ltb (info.time + 30 * 86400) now
    then true
    else if info.last_success == 0 && leb 3 info.attempts
    then true
    else ltb (info.last_success + 7 * 86400) now && leb 10 info.attempts

-- One reference less, in an `int`
unfoldable pub fewer : Info → Info
fewer info = record info { ref_count = (info.ref_count + (2 ^ 32 - 1)) % 2 ^ 32 }

-- What ShrinkNew does with an entry that it takes out of the bucket
unfoldable pub release : ℕ → Info → AddrMan → Option AddrMan
unfolding fewer remove_entry
release id info s =
    let t = record s { map_info = assign id (fewer info) s.map_info } in
    if (fewer info).ref_count == 0 then remove_entry id (fewer info) t else some t

-- The first loop, on the numbers of the bucket, in order: the entry to delete
unfoldable pub first_terrible : ℕ → List (ℕ × Info) → List ℕ → Option (Option (ℕ × Info))
unfolding is_terrible
first_terrible now m [] = some none
first_terrible now m (id ∷ ids) =
    let rest = first_terrible now m ids in
    find id m >>= (λ info. if is_terrible now info then some (some (id, info)) else rest)

-- nTime of an entry; one that the table lacks is made.
unfoldable pub time_of : List (ℕ × Info) → ℕ → ℕ
time_of m id = elim (find id m) [ none ↦ 0 | some info ↦ info.time ]

unfoldable pub older : List (ℕ × Info) → ℕ → Option ℕ → Option ℕ
unfolding time_of
older m id none = some id
older m id (some oldest) = some (if ltb (time_of m id) (time_of m oldest) then id else oldest)

-- The second loop, from position `i` on, with nOldest; `picks` holds at the four positions that are drawn.
unfoldable pub oldest_of : (ℕ → Bool) → List (ℕ × Info) → ℕ → Option ℕ → List ℕ → Option (Option ℕ)
unfolding older
oldest_of picks m i oldest [] = some oldest
oldest_of picks m i oldest (id ∷ ids) =
    let skipped = oldest_of picks m (i + 1) oldest ids in
    let taken = oldest_of picks m (i + 1) (older m id oldest) ids in
    if picks i then if has id m || is_none oldest then taken else none else skipped
  where
    is_none : Option ℕ → Bool
    is_none none = true
    is_none (some x) = false

unfoldable pub erase : ℕ → List ℕ → List ℕ
erase id [] = []
erase id (x ∷ xs) = let rest = erase id xs in if x == id then rest else x ∷ rest

unfoldable pub release_from : List ℕ → ℕ → ℕ → Info → AddrMan → Option (AddrMan × List ℕ × ℕ)
unfolding release erase
release_from bucket code id info s = release id info s >>= (λ t. some (t, erase id bucket, code))

-- After the second loop, whose nOldest has to be an entry
unfoldable pub release_oldest : List ℕ → AddrMan → Option ℕ → Option (AddrMan × List ℕ × ℕ)
unfolding release_from
release_oldest bucket s none = none
release_oldest bucket s (some id) = find id s.map_info >>= (λ info. release_from bucket 1 id info s)

unfoldable pub shrink_found :
    (ℕ → Bool) → List ℕ → AddrMan → Option (ℕ × Info) → Option (AddrMan × List ℕ × ℕ)
unfolding release_from release_oldest oldest_of
shrink_found picks bucket s (some (id, info)) = release_from bucket 0 id info s
shrink_found picks bucket s none =
    oldest_of picks s.map_info 0 none bucket >>= (λ o. release_oldest bucket s o)

-- ShrinkNew of the bucket, which is given by its numbers in order
unfoldable pub shrink_new : (ℕ → Bool) → ℕ → List ℕ → AddrMan → Option (AddrMan × List ℕ × ℕ)
unfolding first_terrible shrink_found
shrink_new picks now bucket s =
    first_terrible now s.map_info bucket >>= (λ o. shrink_found picks bucket s o)
