-- ===== src/AddrMan.antt =====
-- addrman.cpp: the indices of CAddrMan: the table of known addresses, the map from an address to its
-- number, and the vector of the numbers in random order. An address is a number here. The buckets of new
-- addresses stand in AddrMan.Add; the other operations on buckets take them as arguments.
pub mod Consistent
pub mod Swaps
pub mod Entries
pub mod Addresses
pub mod Reachable
pub mod Tried
pub mod New
pub mod Shrinks
pub mod Add
pub mod Added
use mathlib.Core.Bool.{◌&&◌, ◌||◌, Bool, false, not, true}
use tri_tip.Prelude.{
  ap, arith, Bool-cases, drop, get_or, if◌then◌else◌, inl, inr, leb, length, length-append, List,
  lt→ltb, ltb, ltb→lt, map, none, Option, Option-cases, refl, set, length-set, some, suc, sym, take,
  zero, ℕ, ◌%◌, ◌*◌, ◌++◌, ◌+◌, ◌-◌, ◌/◌, ◌<◌, ◌==◌, ◌≡◌, ◌^◌, ◌∙◌, ◌∷◌, ◌≢◌, ◌≤◌, ◌⊎◌, [],
  replicate,
}
use tri_tip.Prelude.{◌>>=◌, get_elem?}
use tri_tip.Prelude.Maps.{find, assign, remove}

-- CAddrInfo: the network address, the port, nTime, nLastTry, nLastSuccess, nAttempts, nRefCount,
-- fInTried and nRandomPos. The services and the source are left out.
pub record Info : Type 0 where
  pub addr : ℕ
  pub port : ℕ
  pub time : ℕ
  pub last_try : ℕ
  pub last_success : ℕ
  pub attempts : ℕ
  pub ref_count : ℕ
  pub in_tried : Bool
  pub random_pos : ℕ

pub record AddrMan : Type 0 where
  pub id_count : ℕ
  pub map_info : List (ℕ × Info)
  pub map_addr : List (ℕ × ℕ)
  pub random : List ℕ

unfoldable pub empty : AddrMan
empty = record { id_count = 0; map_info = []; map_addr = []; random = [] }

-- Find, with the number
unfoldable pub find_addr : ℕ → AddrMan → Option (ℕ × Info)
find_addr addr s = find addr s.map_addr >>= (λ id. find id s.map_info >>= (λ info. some (id, info)))

unfoldable pub create : ℕ → ℕ → ℕ → ℕ → AddrMan → AddrMan
create addr port time last_try s = record {
  id_count = s.id_count + 1;
  map_info =
      assign s.id_count
        (record {
          addr = addr;
          port = port;
          time = time;
          last_try = last_try;
          last_success = 0;
          attempts = 0;
          ref_count = 0;
          in_tried = false;
          random_pos = length s.random;
        })
        s.map_info;
  map_addr = assign addr s.id_count s.map_addr;
  random = s.random ++ s.id_count ∷ [];
}

-- The exchange, once the two entries are found
unfoldable pub swapped : ℕ → ℕ → ℕ → ℕ → Info → Info → AddrMan → AddrMan
swapped pos1 pos2 id1 id2 info1 info2 s = record s {
  map_info =
      assign id2 (record info2 { random_pos = pos1 })
        (assign id1 (record info1 { random_pos = pos2 }) s.map_info);
  random = set (set s.random pos1 id2) pos2 id1;
}

-- SwapRandom; `none` is a failure of an assertion.
unfoldable pub swap_random : ℕ → ℕ → AddrMan → Option AddrMan
unfolding swapped
swap_random pos1 pos2 s =
    if pos1 == pos2
    then some s
    else get_elem? s.random pos1 >>= (λ id1. get_elem? s.random pos2 >>= (λ id2.
      find id1 s.map_info >>= (λ info1.
        find id2 s.map_info >>= (λ info2. some (swapped pos1 pos2 id1 id2 info1 info2 s)))))

-- What ShrinkNew does with an entry that is in no bucket any more
unfoldable pub remove_entry : ℕ → Info → AddrMan → Option AddrMan
unfolding swap_random
remove_entry id info s = swap_random info.random_pos (length s.random - 1) s >>= (λ t.
    some (record {
      id_count = t.id_count;
      map_info = remove id t.map_info;
      map_addr = remove info.addr t.map_addr;
      random = take (length t.random - 1) t.random;
    }))

-- Attempt_ and Connected_, of an address and its port, with what Find gives
unfoldable pub attempted : ℕ → ℕ → ℕ → AddrMan → Option (ℕ × Info) → AddrMan
attempted addr port time s none = s
attempted addr port time s (some (id, info)) =
    if info.addr == addr && info.port == port
    then record s {
      map_info =
          assign id (record info { last_try = time; attempts = info.attempts + 1 }) s.map_info;
    }
    else s

unfoldable pub attempt : ℕ → ℕ → ℕ → AddrMan → AddrMan
unfolding find_addr attempted
attempt addr port time s = attempted addr port time s (find_addr addr s)

unfoldable pub reconnected : ℕ → ℕ → ℕ → AddrMan → Option (ℕ × Info) → AddrMan
reconnected addr port time s none = s
reconnected addr port time s (some (id, info)) =
    if info.addr == addr && info.port == port && ltb (info.time + 20 * 60) time
    then record s { map_info = assign id (record info { time = time % 2 ^ 32 }) s.map_info }
    else s

unfoldable pub connected : ℕ → ℕ → ℕ → AddrMan → AddrMan
unfolding find_addr reconnected
connected addr port time s = reconnected addr port time s (find_addr addr s)

-- The loop of GetAddr_, from position `n` on; `random_int` is GetRandInt at each call, and `count` the number of
-- addresses that are still wanted.
unfoldable pub get_addr_loop : (ℕ → ℕ → ℕ) → ℕ → ℕ → AddrMan → Option (List Info × AddrMan)
unfolding swap_random
get_addr_loop random_int zero n s = some ([], s)
get_addr_loop random_int (suc count) n s =
    swap_random n (random_int n (length s.random - n) + n) s >>= (λ t.
      get_elem? t.random n >>= (λ id.
        find id t.map_info
        >>= (λ info. get_addr_loop random_int count (n + 1) t >>= (λ r. some (info ∷ r.0, r.1)))))

-- GetAddr_, for at most `max_pct` percent of the addresses and at most `max`
unfoldable pub get_addr : (ℕ → ℕ → ℕ) → AddrMan → Option (List Info × AddrMan)
unfolding get_addr_loop
get_addr random_int s =
    let n = 23 * length s.random / 100 in
    get_addr_loop random_int (if ltb 2500 n then 2500 else n) 0 s
