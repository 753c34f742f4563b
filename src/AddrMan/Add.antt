-- ===== src/AddrMan/Add.antt =====
-- addrman.cpp: Add_. ADDRMAN_NEW_BUCKET_SIZE is `bucket_size`, which is 64 in addrman.h.
use mathlib.Core.Bool.{◌&&◌, ◌||◌, Bool, false, not, true}
use tri_tip.Prelude.{
  if◌then◌else◌, leb, length, List, ltb, none, Option, some, ℕ, ◌%◌, ◌*◌, ◌+◌, ◌-◌, ◌==◌, ◌^◌, ◌∷◌,
  [],
}
use tri_tip.Prelude.{◌>>=◌}
use tri_tip.Prelude.Maps.{assign}
use tri_tip.AddrMan.{Info, AddrMan, find_addr, create}
use tri_tip.AddrMan.New.{shrink_new}

-- CAddress
pub record Address : Type 0 where
  pub addr : ℕ
  pub port : ℕ
  pub time : ℕ
  pub last_try : ℕ

-- The entries with `vvNew`, whose sets are given by their numbers in order
pub record Table : Type 0 where
  pub man : AddrMan
  pub buckets : ℕ → List ℕ

-- What a call draws and looks up: GetRandInt of nFactor, the positions that ShrinkNew draws, the times of
-- GetAdjustedTime, whether the address is routable, and the bucket that GetNewBucket gives.
pub record Draw : Type 0 where
  pub random : ℕ → ℕ
  pub picks : ℕ → Bool
  pub now : ℕ
  pub routable : Bool
  pub bucket : ℕ

unfoldable pub member : ℕ → List ℕ → Bool
member id [] = false
member id (x ∷ xs) = if x == id then true else member id xs

-- `set::insert`
unfoldable pub insert_id : ℕ → List ℕ → List ℕ
insert_id id [] = id ∷ []
insert_id id (x ∷ xs) =
    let rest = insert_id id xs in
    if x == id then x ∷ xs else if ltb id x then id ∷ x ∷ xs else x ∷ rest

unfoldable pub put_bucket : ℕ → List ℕ → (ℕ → List ℕ) → ℕ → List ℕ
put_bucket n bucket buckets k = if k == n then bucket else buckets k

-- The update of nTime of an entry that is known
unfoldable pub refreshed : ℕ → ℕ → Address → Info → Info
refreshed now penalty a info =
    let interval = if ltb now (a.time + 24 * 60 * 60) then 60 * 60 else 24 * 60 * 60 in
    if not (a.time == 0) && (info.time == 0 || ltb (info.time + interval + penalty) a.time)
    then record info { time = a.time - penalty }
    else info

-- nFactor; a count above 2^31 is a negative `int`.
unfoldable pub factor : ℕ → ℕ
factor ref_count = if leb (2 ^ 31) ref_count then 1 else 2 ^ ref_count

-- Whether an entry that is known is to go into another bucket
unfoldable pub adds_reference : (ℕ → ℕ) → Address → Info → Bool
unfolding factor
adds_reference random a info =
    if a.time == 0 || (not (info.time == 0) && leb a.time info.time)
    then false
    else if info.in_tried
    then false
    else if info.ref_count == 4
    then false
    else if ltb 1 (factor info.ref_count) && not (random (factor info.ref_count) == 0)
    then false
    else true

-- The entry that Create makes, with its time
unfoldable pub new_info : ℕ → Address → AddrMan → Info
new_info penalty a s = record {
  addr = a.addr;
  port = a.port;
  time = a.time - penalty;
  last_try = a.last_try;
  last_success = 0;
  attempts = 0;
  ref_count = 0;
  in_tried = false;
  random_pos = length s.random;
}

module _ (bucket_size : ℕ) where
  -- What ShrinkNew leaves of a full bucket
  unfoldable pub make_place : Draw → List ℕ → AddrMan → Option (AddrMan × List ℕ)
  unfolding shrink_new
  make_place d bucket s =
      let shrunk = shrink_new d.picks d.now bucket s >>= (λ r. some (r.0, r.1)) in
      if length bucket == bucket_size then shrunk else some (s, bucket)

  -- The end of Add_, which puts the entry into its bucket
  unfoldable pub add_reference : Draw → ℕ → Info → Table → Option Table
  unfolding make_place put_bucket insert_id member
  add_reference d id info t =
      let counted = record info { ref_count = (info.ref_count + 1) % 2 ^ 32 } in
      let s = record t.man { map_info = assign id counted t.man.map_info } in
      let placed = make_place d (t.buckets d.bucket) s >>= (λ r.
        some (record { man = r.0; buckets = put_bucket d.bucket (insert_id id r.1) t.buckets })) in
      if member id (t.buckets d.bucket) then some t else placed

  unfoldable pub add_known : Draw → ℕ → Address → ℕ → Info → Table → Option (Table × Bool)
  unfolding refreshed adds_reference add_reference
  add_known d penalty a id info t =
      let fresh = refreshed d.now penalty a info in
      let u = record t { man = record t.man { map_info = assign id fresh t.man.map_info } } in
      let added = add_reference d id fresh u >>= (λ v. some (v, false)) in
      if adds_reference d.random a fresh then added else some (u, false)

  unfoldable pub add_new : Draw → ℕ → Address → Table → Option (Table × Bool)
  unfolding create new_info add_reference
  add_new d penalty a t =
      let info = new_info penalty a t.man in
      let id = t.man.id_count in
      let made = create a.addr a.port a.time a.last_try t.man in
      let u = record t { man = record made { map_info = assign id info made.map_info } } in
      add_reference d id info u >>= (λ v. some (v, true))

  unfoldable pub add_found : Draw → ℕ → Address → Table → Option (ℕ × Info) → Option (Table × Bool)
  unfolding add_new add_known
  add_found d penalty a t none = add_new d penalty a t
  add_found d penalty a t (some (id, info)) = add_known d penalty a id info t

  -- Add_, with `fNew`
  unfoldable pub add : Draw → ℕ → Address → Table → Option (Table × Bool)
  unfolding find_addr add_found
  add d penalty a t =
      let found = add_found d penalty a t (find_addr a.addr t.man) in
      if d.routable then found else some (t, false)
