-- ===== src/AddrMan/Swaps.antt =====
-- addrman.cpp: SwapRandom and the consistency of the indices.
use tri_tip.Prelude.{
  ap, arith, if◌then◌else◌, inl, inr, length, List, Option-cases, refl, set, length-set, some, sym,
  ℕ, ◌<◌, ◌==◌, ◌≡◌, ◌∙◌, ◌≢◌, ◌⊎◌,
}
use tri_tip.Prelude.{get_elem?}
use tri_tip.Prelude.Maps.{find, assign, find-assign}
use tri_tip.AddrMan.{Info, AddrMan, swapped, swap_random}
use tri_tip.AddrMan.Consistent.{
  pos_in, addr_in, IsConsistent, get_elem?-set, get_elem?-length, get_elem?-some,
}

pub pos_in-find :
    (m : List (ℕ × Info)) (id p : ℕ)
    → pos_in m id ≡ some p
    → (info : Info) × (find id m ≡ some info) × (info.random_pos ≡ p)
unfolding pos_in
pos_in-find m id p e = elim (Option-cases (find id m)) [
  | inl n ↦ ground (arith, e, n)
  | inr (info, n) ↦ (info, n, ground (arith, e, n))
]

pub find-pos_in :
    (m : List (ℕ × Info)) (id : ℕ) (info : Info)
    → find id m ≡ some info
    → pos_in m id ≡ some info.random_pos
unfolding pos_in
find-pos_in m id info e = rw (e, pos_in) refl

pub find-addr_in :
    (m : List (ℕ × Info)) (id : ℕ) (info : Info)
    → find id m ≡ some info
    → addr_in m id ≡ some info.addr
unfolding addr_in
find-addr_in m id info e = rw (e, addr_in) refl

pub pos_in-assign :
    (m : List (ℕ × Info)) (id x : ℕ) (info : Info)
    → pos_in (assign id info m) x ≡ (if id == x then some info.random_pos else pos_in m x)
unfolding pos_in
pos_in-assign m id x info = ground (arith, find-assign x id info m)

pub addr_in-assign :
    (m : List (ℕ × Info)) (id x : ℕ) (info : Info)
    → addr_in (assign id info m) x ≡ (if id == x then some info.addr else addr_in m x)
unfolding addr_in
addr_in-assign m id x info = ground (arith, find-assign x id info m)

module _ (s : AddrMan) (k : IsConsistent s) (pos1 pos2 id1 id2 : ℕ) (info1 info2 : Info)
    (ne : pos1 ≢ pos2) (at1 : get_elem? s.random pos1 ≡ some id1)
    (at2 : get_elem? s.random pos2 ≡ some id2) (found1 : find id1 s.map_info ≡ some info1)
    (found2 : find id2 s.map_info ≡ some info2) where
  unfoldable pub t : AddrMan
  unfolding swapped
  t = swapped pos1 pos2 id1 id2 info1 info2 s

  random_t :
      (p : ℕ)
      → get_elem? t.random p
        ≡ (if pos2 == p then some id1 else if pos1 == p then some id2 else get_elem? s.random p)
  unfolding t swapped
  random_t p = ground (
    arith,
    get_elem?-set (set s.random pos1 id2) pos2 id1 p
        (omega (arith, length-set s.random pos1 id2, get_elem?-length s.random pos2 id2 at2)),
    get_elem?-set s.random pos1 id2 p (get_elem?-length s.random pos1 id1 at1),
  )

  pos_t :
      (x : ℕ)
      → pos_in t.map_info x
        ≡ (if id2 == x then some pos1 else if id1 == x then some pos2 else pos_in s.map_info x)
  unfolding t swapped
  pos_t x = ground (
    arith,
    pos_in-assign (assign id1 (record info1 { random_pos = pos2 }) s.map_info) id2 x
        (record info2 { random_pos = pos1 }),
    pos_in-assign s.map_info id1 x (record info1 { random_pos = pos2 }),
  )

  addr_t : (x : ℕ) → addr_in t.map_info x ≡ addr_in s.map_info x
  unfolding t swapped
  addr_t x = ground (
    arith,
    addr_in-assign (assign id1 (record info1 { random_pos = pos2 }) s.map_info) id2 x
        (record info2 { random_pos = pos1 }),
    addr_in-assign s.map_info id1 x (record info1 { random_pos = pos2 }),
    find-addr_in s.map_info id1 info1 found1,
    find-addr_in s.map_info id2 info2 found2,
    same_addr id1 x,
    same_addr id2 x,
  )
    where
      same_addr : (a b : ℕ) → a ≡ b → addr_in s.map_info a ≡ addr_in s.map_info b
      same_addr a b e = ap (addr_in s.map_info) e

  swapped-listed : (p id : ℕ) → get_elem? t.random p ≡ some id → pos_in t.map_info id ≡ some p
  swapped-listed p id e =
      ground (
        arith,
        e,
        random_t p,
        pos_t id,
        k.listed p id,
        k.listed pos1 id1 at1,
        k.listed pos2 id2 at2,
      )

  swapped-placed : (id p : ℕ) → pos_in t.map_info id ≡ some p → get_elem? t.random p ≡ some id
  swapped-placed id p e =
      ground (
        arith,
        e,
        random_t p,
        pos_t id,
        k.placed id p,
        k.listed pos1 id1 at1,
        k.listed pos2 id2 at2,
      )

  swapped-below : (id p : ℕ) → pos_in t.map_info id ≡ some p → id < s.id_count
  swapped-below id p e = ground (
    arith,
    e,
    pos_t id,
    k.below id p,
    k.below id1 pos1 (k.listed pos1 id1 at1),
    k.below id2 pos2 (k.listed pos2 id2 at2),
  )

  pub swapped-IsConsistent : IsConsistent t
  unfolding t swapped
  swapped-IsConsistent = record {
    listed = swapped-listed;
    placed = swapped-placed;
    named = λ id a e. k.named id a (sym (addr_t id) ∙ e);
    known = λ a id e. addr_t id ∙ k.known a id e;
    below = swapped-below;
  }

-- What a swap keeps and what it exchanges
pub record Swaps (pos1 pos2 : ℕ) (s t : AddrMan) : Type 0 where
  pub consistent : IsConsistent t
  pub same_length : length t.random ≡ length s.random
  pub same_addr : (x : ℕ) → addr_in t.map_info x ≡ addr_in s.map_info x
  pub same_map : t.map_addr ≡ s.map_addr
  pub same_count : t.id_count ≡ s.id_count
  pub second : get_elem? t.random pos2 ≡ get_elem? s.random pos1
  pub other : (p : ℕ) → p ≢ pos1 → p ≢ pos2 → get_elem? t.random p ≡ get_elem? s.random p
  pub first : get_elem? t.random pos1 ≡ get_elem? s.random pos2

swapped-Swaps :
    (s : AddrMan) (k : IsConsistent s) (pos1 pos2 id1 id2 : ℕ) (info1 info2 : Info)
    → pos1 ≢ pos2
    → get_elem? s.random pos1 ≡ some id1
    → get_elem? s.random pos2 ≡ some id2
    → find id1 s.map_info ≡ some info1
    → find id2 s.map_info ≡ some info2
    → Swaps pos1 pos2 s (swapped pos1 pos2 id1 id2 info1 info2 s)
unfolding swapped t
swapped-Swaps s k pos1 pos2 id1 id2 info1 info2 ne at1 at2 f1 f2 = record {
  consistent = swapped-IsConsistent s k pos1 pos2 id1 id2 info1 info2 ne at1 at2 f1 f2;
  same_length = length-set (set s.random pos1 id2) pos2 id1 ∙ length-set s.random pos1 id2;
  same_addr = addr_t s k pos1 pos2 id1 id2 info1 info2 ne at1 at2 f1 f2;
  same_map = refl;
  same_count = refl;
  other = λ p n1 n2.
      ground (arith, n1, n2, random_t s k pos1 pos2 id1 id2 info1 info2 ne at1 at2 f1 f2 p);
  second = ground (arith, random_t s k pos1 pos2 id1 id2 info1 info2 ne at1 at2 f1 f2 pos2);
  first = ground (arith, at2, random_t s k pos1 pos2 id1 id2 info1 info2 ne at1 at2 f1 f2 pos1);
}

swap_random-equal : (s : AddrMan) (pos1 pos2 : ℕ) → pos1 ≡ pos2 → swap_random pos1 pos2 s ≡ some s
unfolding swap_random
swap_random-equal s pos1 pos2 e = ground (arith, e)

swap_random-swapped :
    (s : AddrMan) (pos1 pos2 id1 id2 : ℕ) (info1 info2 : Info)
    → pos1 ≢ pos2
    → get_elem? s.random pos1 ≡ some id1
    → get_elem? s.random pos2 ≡ some id2
    → find id1 s.map_info ≡ some info1
    → find id2 s.map_info ≡ some info2
    → swap_random pos1 pos2 s ≡ some (swapped pos1 pos2 id1 id2 info1 info2 s)
unfolding swap_random
swap_random-swapped s pos1 pos2 id1 id2 info1 info2 ne at1 at2 f1 f2 =
    ground (arith, ne, at1, at2, f1, f2)

-- On positions of the vector SwapRandom fails no assertion.
pub swap_random-Swaps :
    (s : AddrMan) (pos1 pos2 : ℕ)
    → IsConsistent s
    → pos1 < length s.random
    → pos2 < length s.random
    → (t : AddrMan) × (swap_random pos1 pos2 s ≡ some t) × Swaps pos1 pos2 s t
swap_random-Swaps s pos1 pos2 k h1 h2 = elim (same_or pos1 pos2) [
  | inl e ↦ (
    s,
    swap_random-equal s pos1 pos2 e,
    record {
      consistent = k;
      same_length = refl;
      same_addr = λ x. refl;
      same_map = refl;
      same_count = refl;
      other = λ p n1 n2. refl;
      second = ap (get_elem? s.random) (sym e);
      first = ap (get_elem? s.random) e;
    },
  )
  | inr ne ↦
      let a1 = get_elem?-some s.random pos1 h1 in
      let a2 = get_elem?-some s.random pos2 h2 in
      let f1 = pos_in-find s.map_info a1.0 pos1 (k.listed pos1 a1.0 a1.1) in
      let f2 = pos_in-find s.map_info a2.0 pos2 (k.listed pos2 a2.0 a2.1) in
      (
        swapped pos1 pos2 a1.0 a2.0 f1.0 f2.0 s,
        swap_random-swapped s pos1 pos2 a1.0 a2.0 f1.0 f2.0 ne a1.1 a2.1 f1.1 f2.1,
        swapped-Swaps s k pos1 pos2 a1.0 a2.0 f1.0 f2.0 ne a1.1 a2.1 f1.1 f2.1,
      )
]
  where
    same_or : (a b : ℕ) → (a ≡ b) ⊎ (a ≢ b)
    same_or a b = omega arith
