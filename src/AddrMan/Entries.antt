-- ===== src/AddrMan/Entries.antt =====
-- addrman.cpp: Create, the removal of ShrinkNew, Attempt_ and Connected_, and the consistency of the indices.
use mathlib.Core.Bool.{◌&&◌, Bool, false, true}
use tri_tip.Prelude.{
  ap, arith, Bool-cases, if◌then◌else◌, inl, inr, length, List, ltb, none, Option, Option-cases,
  refl, some, sym, take, ℕ, ◌%◌, ◌*◌, ◌+◌, ◌-◌, ◌==◌, ◌≡◌, ◌^◌, ◌∙◌,
}
use tri_tip.Prelude.{get_elem?, ◌>>=◌}
use tri_tip.Prelude.Maps.{find, assign, remove, find-assign, find-remove}
use tri_tip.AddrMan.{
  Info, AddrMan, find_addr, create, swap_random, remove_entry, attempted, attempt, reconnected,
  connected,
}
use tri_tip.AddrMan.Consistent.{
  pos_in, addr_in, IsConsistent, get_elem?-append, get_elem?-take, get_elem?-length,
}
use tri_tip.AddrMan.Swaps.{
  find-pos_in, find-addr_in, pos_in-assign, addr_in-assign, swap_random-Swaps,
}

pub addr_in-pos_in :
    (m : List (ℕ × Info)) (id a : ℕ) → addr_in m id ≡ some a → (p : ℕ) × (pos_in m id ≡ some p)
unfolding addr_in pos_in
addr_in-pos_in m id a e = elim (Option-cases (find id m)) [
  | inl n ↦ ground (arith, e, n)
  | inr (info, n) ↦ (info.random_pos, ground (arith, n))
]

find-same : (m : List (ℕ × ℕ)) (a b : ℕ) → a ≡ b → find a m ≡ find b m
find-same m a b e = ap (λ x. find x m) e

-- Create, of an address that is not known
pub create-IsConsistent :
    (s : AddrMan) (addr port time last_try : ℕ)
    → IsConsistent s
    → find addr s.map_addr ≡ none
    → IsConsistent (create addr port time last_try s)
unfolding create
create-IsConsistent s addr port time last_try k new = record {
  listed = λ p id e. ground (
    arith,
    e,
    get_elem?-append s.random s.id_count p,
    pos_in-assign s.map_info s.id_count id entry,
    k.listed p id,
    k.below id p,
  );
  placed = λ id p e. ground (
    arith,
    e,
    get_elem?-append s.random s.id_count p,
    pos_in-assign s.map_info s.id_count id entry,
    k.placed id p,
    get_elem?-length s.random p id,
  );
  named = λ id a e. ground (
    arith,
    e,
    new,
    addr_in-assign s.map_info s.id_count id entry,
    find-assign a addr s.id_count s.map_addr,
    k.named id a,
    find-same s.map_addr addr a,
  );
  known = λ a id e. elim (Bool-cases (addr == a)) [
    | inl y ↦ ground (
      arith,
      e,
      y,
      addr_in-assign s.map_info s.id_count id entry,
      find-assign a addr s.id_count s.map_addr,
    )
    | inr n ↦ old a id (ground (arith, e, n, find-assign a addr s.id_count s.map_addr))
  ];
  below = λ id p e. ground (arith, e, pos_in-assign s.map_info s.id_count id entry, k.below id p);
}
  where
    entry : Info
    entry = record {
      addr = addr;
      port = port;
      time = time;
      last_try = last_try;
      last_success = 0;
      attempts = 0;
      ref_count = 0;
      in_tried = false;
      random_pos = length s.random;
    }

    old :
        (a id : ℕ)
        → find a s.map_addr ≡ some id
        → addr_in (assign s.id_count entry s.map_info) id ≡ some a
    old a id e =
        let at = k.known a id e in
        let place = addr_in-pos_in s.map_info id a at in
        ground
          (arith, at, addr_in-assign s.map_info s.id_count id entry, k.below id place.0 place.1)

pub pos_in-remove :
    (m : List (ℕ × Info)) (id x : ℕ)
    → pos_in (remove id m) x ≡ (if id == x then none else pos_in m x)
unfolding pos_in
pos_in-remove m id x = ground (arith, find-remove x id m)

pub addr_in-remove :
    (m : List (ℕ × Info)) (id x : ℕ)
    → addr_in (remove id m) x ≡ (if id == x then none else addr_in m x)
unfolding addr_in
addr_in-remove m id x = ground (arith, find-remove x id m)

-- Without its last number
unfoldable dropped : ℕ → ℕ → AddrMan → AddrMan
dropped id addr t = record {
  id_count = t.id_count;
  map_info = remove id t.map_info;
  map_addr = remove addr t.map_addr;
  random = take (length t.random - 1) t.random;
}

dropped-IsConsistent :
    (t : AddrMan) (id addr : ℕ)
    → IsConsistent t
    → get_elem? t.random (length t.random - 1) ≡ some id
    → addr_in t.map_info id ≡ some addr
    → IsConsistent (dropped id addr t)
unfolding dropped
dropped-IsConsistent t id addr k last at = record {
  listed = λ p x e. ground (
    arith,
    e,
    get_elem?-take (length t.random - 1) t.random p,
    pos_in-remove t.map_info id x,
    k.listed p x,
    place,
    pos_in-same id x,
  );
  placed = λ x p e. ground (
    arith,
    e,
    last,
    get_elem?-take (length t.random - 1) t.random p,
    pos_in-remove t.map_info id x,
    k.placed x p,
    get_elem?-length t.random p x,
    get_elem?-same p (length t.random - 1),
  );
  named = λ x a e. ground (
    arith,
    e,
    addr_in-remove t.map_info id x,
    find-remove a addr t.map_addr,
    k.named x a,
    k.named id addr at,
    find-same t.map_addr addr a,
  );
  known = λ a x e. ground (
    arith,
    e,
    at,
    addr_in-remove t.map_info id x,
    find-remove a addr t.map_addr,
    k.known a x,
    addr_in-same id x,
  );
  below = λ x p e. ground (arith, e, pos_in-remove t.map_info id x, k.below x p);
}
  where
    place : pos_in t.map_info id ≡ some (length t.random - 1)
    place = k.listed (length t.random - 1) id last

    pos_in-same : (a b : ℕ) → a ≡ b → pos_in t.map_info a ≡ pos_in t.map_info b
    pos_in-same a b e = ap (pos_in t.map_info) e

    addr_in-same : (a b : ℕ) → a ≡ b → addr_in t.map_info a ≡ addr_in t.map_info b
    addr_in-same a b e = ap (addr_in t.map_info) e

    get_elem?-same : (a b : ℕ) → a ≡ b → get_elem? t.random a ≡ get_elem? t.random b
    get_elem?-same a b e = ap (get_elem? t.random) e

remove_entry-dropped :
    (id : ℕ) (info : Info) (s t : AddrMan)
    → swap_random info.random_pos (length s.random - 1) s ≡ some t
    → remove_entry id info s ≡ some (dropped id info.addr t)
unfolding remove_entry dropped
remove_entry-dropped id info s t e =
    ap
      (λ o. o >>= (λ u. some (record {
        id_count = u.id_count;
        map_info = remove id u.map_info;
        map_addr = remove info.addr u.map_addr;
        random = take (length u.random - 1) u.random;
      })))
      e

-- The removal of an entry that the table has fails no assertion.
pub remove_entry-IsConsistent :
    (s : AddrMan) (id : ℕ) (info : Info)
    → IsConsistent s
    → find id s.map_info ≡ some info
    → (t : AddrMan) × (remove_entry id info s ≡ some t) × IsConsistent t
remove_entry-IsConsistent s id info k f =
    let pl = k.placed id info.random_pos (find-pos_in s.map_info id info f) in
    let inside = get_elem?-length s.random info.random_pos id pl in
    let r =
      swap_random-Swaps s info.random_pos (length s.random - 1) k inside (omega (arith, inside)) in
    (
      dropped id info.addr r.0,
      remove_entry-dropped id info s r.0 r.1,
      dropped-IsConsistent r.0 id info.addr r.2.consistent
          (ap (λ n. get_elem? r.0.random (n - 1)) r.2.same_length ∙ r.2.second ∙ pl)
          (r.2.same_addr id ∙ find-addr_in s.map_info id info f),
    )

-- A change of an entry's times
pub touched-IsConsistent :
    (s : AddrMan) (id : ℕ) (info changed : Info)
    → IsConsistent s
    → find id s.map_info ≡ some info
    → changed.addr ≡ info.addr
    → changed.random_pos ≡ info.random_pos
    → IsConsistent (record s { map_info = assign id changed s.map_info })
touched-IsConsistent s id info changed k f ea ep = record {
  listed = λ p x e. pos x ∙ k.listed p x e;
  placed = λ x p e. k.placed x p (sym (pos x) ∙ e);
  named = λ x a e. k.named x a (sym (address x) ∙ e);
  known = λ a x e. address x ∙ k.known a x e;
  below = λ x p e. k.below x p (sym (pos x) ∙ e);
}
  where
    pos_same : (a b : ℕ) → a ≡ b → pos_in s.map_info a ≡ pos_in s.map_info b
    pos_same a b e = ap (pos_in s.map_info) e

    addr_same : (a b : ℕ) → a ≡ b → addr_in s.map_info a ≡ addr_in s.map_info b
    addr_same a b e = ap (addr_in s.map_info) e

    pos : (x : ℕ) → pos_in (assign id changed s.map_info) x ≡ pos_in s.map_info x
    pos x = ground (
      arith,
      ep,
      pos_in-assign s.map_info id x changed,
      find-pos_in s.map_info id info f,
      pos_same id x,
    )

    address : (x : ℕ) → addr_in (assign id changed s.map_info) x ≡ addr_in s.map_info x
    address x = ground (
      arith,
      ea,
      addr_in-assign s.map_info id x changed,
      find-addr_in s.map_info id info f,
      addr_same id x,
    )

-- What Find gives is an entry of the table.
unfoldable pub Found : AddrMan → Option (ℕ × Info) → Type 0
Found s none = Unit {0}
Found s (some (id, info)) = find id s.map_info ≡ some info

pub find_addr-Found : (addr : ℕ) (s : AddrMan) → Found s (find_addr addr s)
unfolding find_addr Found
find_addr-Found addr s = number (find addr s.map_addr)
  where
    entry :
        (id : ℕ) (o : Option Info)
        → find id s.map_info ≡ o
        → Found s (o >>= (λ info. some (id, info)))
    entry id none e = tt
    entry id (some info) e = e

    number :
        (o : Option ℕ) → Found s (o >>= (λ id. find id s.map_info >>= (λ info. some (id, info))))
    number none = tt
    number (some id) = entry id (find id s.map_info) refl

attempted-IsConsistent :
    (addr port time : ℕ) (s : AddrMan) (o : Option (ℕ × Info))
    → Found s o
    → IsConsistent s
    → IsConsistent (attempted addr port time s o)
unfolding attempted Found
attempted-IsConsistent addr port time s none f k = k
attempted-IsConsistent addr port time s (some (id, info)) f k =
    step (info.addr == addr && info.port == port)
  where
    next : AddrMan
    next = record s {
      map_info =
          assign id (record info { last_try = time; attempts = info.attempts + 1 }) s.map_info;
    }

    step : (b : Bool) → IsConsistent (if b then next else s)
    step true = touched-IsConsistent s id info _ k f refl refl
    step false = k

-- Attempt_ and Connected_ keep the indices.
pub attempt-IsConsistent :
    (s : AddrMan) (addr port time : ℕ) → IsConsistent s → IsConsistent (attempt addr port time s)
unfolding attempt
attempt-IsConsistent s addr port time k =
    attempted-IsConsistent addr port time s (find_addr addr s) (find_addr-Found addr s) k

reconnected-IsConsistent :
    (addr port time : ℕ) (s : AddrMan) (o : Option (ℕ × Info))
    → Found s o
    → IsConsistent s
    → IsConsistent (reconnected addr port time s o)
unfolding reconnected Found
reconnected-IsConsistent addr port time s none f k = k
reconnected-IsConsistent addr port time s (some (id, info)) f k =
    step (info.addr == addr && info.port == port && ltb (info.time + 20 * 60) time)
  where
    next : AddrMan
    next = record s { map_info = assign id (record info { time = time % 2 ^ 32 }) s.map_info }

    step : (b : Bool) → IsConsistent (if b then next else s)
    step true = touched-IsConsistent s id info _ k f refl refl
    step false = k

pub connected-IsConsistent :
    (s : AddrMan) (addr port time : ℕ) → IsConsistent s → IsConsistent (connected addr port time s)
unfolding connected
connected-IsConsistent s addr port time k =
    reconnected-IsConsistent addr port time s (find_addr addr s) (find_addr-Found addr s) k
