-- ===== src/AddrMan/Addresses.antt =====
-- addrman.cpp: GetAddr_, and which addresses it gives.
use Prim.Native.Nat.{min}
use tri_tip.Prelude.{
  ap, arith, if◌then◌else◌, length, List, ltb, Option, refl, some, suc, sym, zero, ℕ, ◌*◌, ◌+◌, ◌-◌,
  ◌/◌, ◌<◌, ◌≡◌, ◌∙◌, ◌∷◌, ◌≤◌, [],
}
use tri_tip.Prelude.{get_elem?, ◌>>=◌}
use tri_tip.Prelude.Maps.{find}
use tri_tip.AddrMan.{Info, AddrMan, swap_random, get_addr_loop, get_addr}
use tri_tip.AddrMan.Consistent.{pos_in, addr_in, IsConsistent, get_elem?-some}
use tri_tip.AddrMan.Swaps.{pos_in-find, find-addr_in, Swaps, swap_random-Swaps}

unfoldable pub addresses : List Info → List ℕ
addresses [] = []
addresses (info ∷ infos) = info.addr ∷ addresses infos

-- What the loop from position `n` on keeps and gives
pub record Chosen (n count : ℕ) (s : AddrMan) (infos : List Info) (t : AddrMan) : Type 0 where
  pub consistent : IsConsistent t
  pub number : length (addresses infos) ≡ count
  pub kept : (p : ℕ) → p < n → get_elem? t.random p ≡ get_elem? s.random p
  pub same_addr : (x : ℕ) → addr_in t.map_info x ≡ addr_in s.map_info x
  pub placed :
      (i a : ℕ)
      → get_elem? (addresses infos) i ≡ some a
      → (id : ℕ) × (get_elem? t.random (n + i) ≡ some id) × (addr_in t.map_info id ≡ some a)

-- One step and the rest of the loop
Chosen-step :
    (n count pos : ℕ) (s t u : AddrMan) (id : ℕ) (info : Info) (infos : List Info)
    → n ≤ pos
    → Swaps n pos s t
    → get_elem? t.random n ≡ some id
    → find id t.map_info ≡ some info
    → Chosen (n + 1) count t infos u
    → Chosen n (suc count) s (info ∷ infos) u
unfolding addresses
Chosen-step n count pos s t u id info infos h w at f c = record {
  consistent = c.consistent;
  number = ap suc c.number;
  kept = λ p l. c.kept p (omega (arith, l)) ∙ w.other p (omega (arith, l)) (omega (arith, l, h));
  same_addr = λ x. c.same_addr x ∙ w.same_addr x;
  placed = place;
}
  where
    at_sum : (a b : ℕ) → a ≡ b → get_elem? u.random a ≡ get_elem? u.random b
    at_sum a b e = ap (get_elem? u.random) e

    place :
        (i a : ℕ)
        → get_elem? (info.addr ∷ addresses infos) i ≡ some a
        → (id' : ℕ) × (get_elem? u.random (n + i) ≡ some id') × (addr_in u.map_info id' ≡ some a)
    place zero a e = (
      id,
      at_sum (n + 0) n (omega arith) ∙ c.kept n (omega arith) ∙ at,
      c.same_addr id ∙ find-addr_in t.map_info id info f ∙ e,
    )
    place (suc i) a e =
        let r = c.placed i a e in (r.0, at_sum (n + suc i) (n + 1 + i) (omega arith) ∙ r.1, r.2)

bind-some : {A B : Type 0} {o : Option A} {a : A} (f : A → Option B) → o ≡ some a → (o >>= f) ≡ f a
bind-some f e = ap (λ p. p >>= f) e

loop-step :
    (random_int : ℕ → ℕ → ℕ) (count n id : ℕ) (s t u : AddrMan) (info : Info) (infos : List Info)
    → swap_random n (random_int n (length s.random - n) + n) s ≡ some t
    → get_elem? t.random n ≡ some id
    → find id t.map_info ≡ some info
    → get_addr_loop random_int count (n + 1) t ≡ some (infos, u)
    → get_addr_loop random_int (suc count) n s ≡ some (info ∷ infos, u)
unfolding get_addr_loop
loop-step random_int count n id s t u info infos a b c d =
    bind-some _ a ∙ bind-some _ b ∙ bind-some _ c ∙ bind-some _ d

loop-zero :
    (random_int : ℕ → ℕ → ℕ) (n : ℕ) (s : AddrMan)
    → get_addr_loop random_int zero n s ≡ some ([], s)
unfolding get_addr_loop
loop-zero random_int n s = refl

Chosen-none : (n : ℕ) (s : AddrMan) → IsConsistent s → Chosen n zero s [] s
unfolding addresses
Chosen-none n s k = record {
  consistent = k;
  number = refl;
  kept = λ p l. refl;
  same_addr = λ x. refl;
  placed = λ i a e. ground (arith, e);
}

pub get_addr_loop-Chosen :
    (random_int : ℕ → ℕ → ℕ) (count n : ℕ) (s : AddrMan)
    → ((i m : ℕ) → 0 < m → random_int i m < m)
    → IsConsistent s
    → n + count ≤ length s.random
    → (infos : List Info) × (t : AddrMan) × (get_addr_loop random_int count n s ≡ some (infos, t))
      × Chosen n count s infos t
get_addr_loop-Chosen random_int zero n s r k h =
    ([], s, loop-zero random_int n s, Chosen-none n s k)
get_addr_loop-Chosen random_int (suc count) n s r k h =
    let inside = r n (length s.random - n) (omega (arith, h)) in
    let pos = random_int n (length s.random - n) + n in
    let w = swap_random-Swaps s n pos k (omega (arith, h)) (omega (arith, inside, h)) in
    let at = get_elem?-some w.0.random n (omega (arith, w.2.same_length, h)) in
    let f = pos_in-find w.0.map_info at.0 n (w.2.consistent.listed n at.0 at.1) in
    let c =
      get_addr_loop-Chosen random_int count (n + 1) w.0 r w.2.consistent
        (omega (arith, w.2.same_length, h)) in
    (
      f.0 ∷ c.0,
      c.1,
      loop-step random_int count n at.0 s w.0 c.1 f.0 c.0 w.1 at.1 f.1 c.2,
      Chosen-step n count pos s w.0 c.1 at.0 f.0 c.0 (omega arith) w.2 at.1 f.1 c.3,
    )

-- The addresses are distinct.
Chosen-distinct :
    (n count : ℕ) (s t : AddrMan) (infos : List Info) (i j a : ℕ)
    → Chosen n count s infos t
    → get_elem? (addresses infos) i ≡ some a
    → get_elem? (addresses infos) j ≡ some a
    → i ≡ j
Chosen-distinct n count s t infos i j a c ei ej =
    let x = c.placed i a ei in
    let y = c.placed j a ej in
    ground (
      arith,
      c.consistent.named x.0 a x.2,
      c.consistent.named y.0 a y.2,
      c.consistent.listed (n + i) x.0 x.1,
      c.consistent.listed (n + j) y.0 y.1,
      pos_in-same x.0 y.0,
    )
  where
    pos_in-same : (a b : ℕ) → a ≡ b → pos_in t.map_info a ≡ pos_in t.map_info b
    pos_in-same a b e = ap (pos_in t.map_info) e

-- GetAddr_'s result: the number of the addresses, that they are distinct and in the table, and
-- that the indices stay consistent
pub record Gives (s : AddrMan) (infos : List Info) (t : AddrMan) : Type 0 where
  pub number : length (addresses infos) ≡ min (23 * length s.random / 100) 2500
  pub distinct :
      (i j a : ℕ)
      → get_elem? (addresses infos) i ≡ some a
      → get_elem? (addresses infos) j ≡ some a
      → i ≡ j
  pub known :
      (i a : ℕ)
      → get_elem? (addresses infos) i ≡ some a
      → (id : ℕ) × (addr_in s.map_info id ≡ some a)
  pub consistent : IsConsistent t
  pub same_addr : (x : ℕ) → addr_in t.map_info x ≡ addr_in s.map_info x

Chosen-Gives :
    (s t : AddrMan) (count : ℕ) (infos : List Info)
    → count ≡ min (23 * length s.random / 100) 2500
    → Chosen 0 count s infos t
    → Gives s infos t
Chosen-Gives s t count infos e c = record {
  number = c.number ∙ e;
  distinct = λ i j a. Chosen-distinct 0 count s t infos i j a c;
  known = λ i a h. let r = c.placed i a h in (r.0, sym (c.same_addr r.0) ∙ r.2);
  consistent = c.consistent;
  same_addr = c.same_addr;
}

cap-min : (q : ℕ) → (if ltb 2500 q then 2500 else q) ≡ min q 2500
cap-min q = ground arith

percent_le : (n : ℕ) → 23 * n / 100 ≤ n
percent_le n = omega arith

most_le : (n : ℕ) → 0 + (if ltb 2500 (23 * n / 100) then 2500 else 23 * n / 100) ≤ n
most_le n = capped_le (23 * n / 100) (percent_le n)
  where
    capped_le : (q : ℕ) → q ≤ n → 0 + (if ltb 2500 q then 2500 else q) ≤ n
    capped_le q h = ground (arith, h)

-- On consistent indices GetAddr_ fails no assertion: it gives 23 percent of the addresses, rounded
-- down, or 2500 when that is more; they are distinct and all in the table; and the indices stay
-- consistent, with the same addresses. GetRandInt gives a number below its bound.
pub get_addr-Gives :
    (random_int : ℕ → ℕ → ℕ) (s : AddrMan)
    → ((i m : ℕ) → 0 < m → random_int i m < m)
    → IsConsistent s
    → (infos : List Info) × (t : AddrMan) × (get_addr random_int s ≡ some (infos, t))
      × Gives s infos t
unfolding get_addr
get_addr-Gives random_int s r k =
    let count =
      if ltb 2500 (23 * length s.random / 100) then 2500 else 23 * length s.random / 100 in
    let c = get_addr_loop-Chosen random_int count 0 s r k (most_le (length s.random)) in
    (c.0, c.1, c.2, Chosen-Gives s c.1 count c.0 (cap-min (23 * length s.random / 100)) c.3)
