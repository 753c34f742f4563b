-- ===== src/AddrMan/Added.antt =====
-- addrman.cpp: Add_ and the consistency of the indices.
use mathlib.Core.Bool.{◌&&◌, ◌||◌, Bool, false, not, true}
use tri_tip.Prelude.{
  arith, if◌then◌else◌, inl, inr, length, List, ltb, none, Option, Option-cases, refl, some, ℕ, ◌*◌,
  ◌+◌, ◌-◌, ◌==◌, ◌≡◌,
}
use mathlib.Core.Path.{subst}
use tri_tip.Prelude.{◌>>=◌}
use tri_tip.Prelude.Maps.{find, assign, find-assign}
use tri_tip.AddrMan.{Info, AddrMan, find_addr, create}
use tri_tip.AddrMan.Consistent.{addr_in, IsConsistent}
use tri_tip.AddrMan.Entries.{Found, find_addr-Found, create-IsConsistent, touched-IsConsistent}
use tri_tip.AddrMan.New.{shrink_new}
use tri_tip.AddrMan.Shrinks.{shrink_new-IsConsistent}
use tri_tip.AddrMan.Add.{
  Address, Table, Draw, member, refreshed, adds_reference, make_place, add_reference, add_known,
  new_info, add_new, add_found, add,
}

-- What holds of a result, if there is one
abbrev OnSome : {A : Type 0} → (A → Type 0) → Option A → Type 0
OnSome P none = Unit {0}
OnSome P (some a) = P a

OnSome-bind :
    {A B : Type 0} (P : A → Type 0) (Q : B → Type 0) (o : Option A) (f : A → Option B)
    → OnSome P o
    → ((a : A) → P a → OnSome Q (f a))
    → OnSome Q (o >>= f)
OnSome-bind P Q none f p g = tt
OnSome-bind P Q (some a) f p g = g a p

OnSome-result :
    {A : Type 0} (P : A → Type 0) (o : Option A) → ((a : A) → o ≡ some a → P a) → OnSome P o
OnSome-result P none f = tt
OnSome-result P (some a) f = f a refl

OnSome-if :
    {A : Type 0} (P : A → Type 0) (b : Bool) (o u : Option A)
    → OnSome P o
    → OnSome P u
    → OnSome P (if b then o else u)
OnSome-if P true o u p q = p
OnSome-if P false o u p q = q

refreshed_addr :
    (now penalty : ℕ) (a : Address) (info : Info)
    → ((refreshed now penalty a info).addr ≡ info.addr)
      × ((refreshed now penalty a info).random_pos ≡ info.random_pos)
unfolding refreshed
refreshed_addr now penalty a info = step (
    not (a.time == 0)
    && (info.time == 0
        || ltb
            (info.time
              + (if ltb now (a.time + 24 * 60 * 60) then 60 * 60 else 24 * 60 * 60)
              + penalty)
            a.time))
  where
    step :
        (b : Bool)
        → ((if b then record info { time = a.time - penalty } else info).addr ≡ info.addr)
          × ((if b then record info { time = a.time - penalty } else info).random_pos
              ≡ info.random_pos)
    step true = (refl, refl)
    step false = (refl, refl)

find_addr-none :
    (s : AddrMan) (addr : ℕ)
    → IsConsistent s
    → find_addr addr s ≡ none
    → find addr s.map_addr ≡ none
unfolding find_addr addr_in
find_addr-none s addr k e = elim (Option-cases (find addr s.map_addr)) [
  | inl n ↦ n
  | inr (id, n) ↦ elim (Option-cases (find id s.map_info)) [
    | inl m ↦ ground (arith, m, k.known addr id n)
    | inr (info, m) ↦ ground (arith, n, m, e)
  ]
]

module _ (bucket_size : ℕ) where
  make_place-IsConsistent :
      (d : Draw) (bucket : List ℕ) (s : AddrMan)
      → IsConsistent s
      → OnSome (λ r. IsConsistent r.0) (make_place bucket_size d bucket s)
  unfolding make_place
  make_place-IsConsistent d bucket s k =
      OnSome-if (λ r. IsConsistent r.0) (length bucket == bucket_size) _ _
        (OnSome-bind (λ r. IsConsistent r.0) (λ r. IsConsistent r.0)
          (shrink_new d.picks d.now bucket s) (λ r. some (r.0, r.1))
          (OnSome-result (λ r. IsConsistent r.0) _
            (λ r e. shrink_new-IsConsistent d.picks d.now bucket s r k e))
          (λ r p. p))
        k

  add_reference-IsConsistent :
      (d : Draw) (id : ℕ) (info : Info) (t : Table)
      → IsConsistent t.man
      → find id t.man.map_info ≡ some info
      → OnSome (λ u. IsConsistent u.man) (add_reference bucket_size d id info t)
  unfolding add_reference
  add_reference-IsConsistent d id info t k f =
      OnSome-if (λ u. IsConsistent u.man) (member id (t.buckets d.bucket)) _ _ k
        (OnSome-bind (λ r. IsConsistent r.0) (λ u. IsConsistent u.man)
          (make_place bucket_size d (t.buckets d.bucket) _) _
          (make_place-IsConsistent d (t.buckets d.bucket) _
            (touched-IsConsistent t.man id info _ k f refl refl))
          (λ r p. p))

  add_known-IsConsistent :
      (d : Draw) (penalty : ℕ) (a : Address) (id : ℕ) (info : Info) (t : Table)
      → IsConsistent t.man
      → find id t.man.map_info ≡ some info
      → OnSome (λ r. IsConsistent r.0.man) (add_known bucket_size d penalty a id info t)
  unfolding add_known
  add_known-IsConsistent d penalty a id info t k f =
      let same = refreshed_addr d.now penalty a info in
      let fresh = refreshed d.now penalty a info in
      let kept = touched-IsConsistent t.man id info fresh k f same.0 same.1 in
      OnSome-if (λ r. IsConsistent r.0.man) (adds_reference d.random a fresh) _ _
        (OnSome-bind {A = Table} {B = Table × Bool} (λ u. IsConsistent u.man)
          (λ r. IsConsistent r.0.man) _ (λ v. some (v, false))
          (add_reference-IsConsistent d id fresh
            (record t { man = record t.man { map_info = assign id fresh t.man.map_info } }) kept
            (found_again id fresh t.man.map_info))
          (λ u p. p))
        kept
    where
      found_again : (id : ℕ) (i : Info) (m : List (ℕ × Info)) → find id (assign id i m) ≡ some i
      found_again id i m = ground (arith, find-assign id id i m)

  add_new-IsConsistent :
      (d : Draw) (penalty : ℕ) (a : Address) (t : Table)
      → IsConsistent t.man
      → find a.addr t.man.map_addr ≡ none
      → OnSome (λ r. IsConsistent r.0.man) (add_new bucket_size d penalty a t)
  unfolding add_new create new_info
  add_new-IsConsistent d penalty a t k n =
      let made = create a.addr a.port a.time a.last_try t.man in
      OnSome-bind {A = Table} {B = Table × Bool} (λ u. IsConsistent u.man)
        (λ r. IsConsistent r.0.man) _ (λ v. some (v, true))
        (add_reference-IsConsistent d t.man.id_count (new_info penalty a t.man)
          (record t {
            man = record made {
              map_info = assign t.man.id_count (new_info penalty a t.man) made.map_info;
            };
          })
          (touched-IsConsistent made t.man.id_count _ _
            (create-IsConsistent t.man a.addr a.port a.time a.last_try k n)
            (found_again t.man.id_count _ t.man.map_info) refl refl)
          (found_again t.man.id_count _ made.map_info))
        (λ u p. p)
    where
      found_again : (id : ℕ) (i : Info) (m : List (ℕ × Info)) → find id (assign id i m) ≡ some i
      found_again id i m = ground (arith, find-assign id id i m)

  add_found-IsConsistent :
      (d : Draw) (penalty : ℕ) (a : Address) (t : Table) (o : Option (ℕ × Info))
      → IsConsistent t.man
      → find_addr a.addr t.man ≡ o
      → Found t.man o
      → OnSome (λ r. IsConsistent r.0.man) (add_found bucket_size d penalty a t o)
  unfolding add_found Found
  add_found-IsConsistent d penalty a t none k e f =
      add_new-IsConsistent d penalty a t k (find_addr-none t.man a.addr k e)
  add_found-IsConsistent d penalty a t (some (id, info)) k e f =
      add_known-IsConsistent d penalty a id info t k f

  add-OnSome :
      (d : Draw) (penalty : ℕ) (a : Address) (t : Table)
      → IsConsistent t.man
      → OnSome (λ r. IsConsistent r.0.man) (add bucket_size d penalty a t)
  unfolding add
  add-OnSome d penalty a t k =
      OnSome-if (λ r. IsConsistent r.0.man) d.routable _ _
        (add_found-IsConsistent d penalty a t _ k refl (find_addr-Found a.addr t.man)) k

  -- Add_, when no assertion fails
  pub add-IsConsistent :
      (d : Draw) (penalty : ℕ) (a : Address) (t : Table) (r : Table × Bool)
      → IsConsistent t.man
      → add bucket_size d penalty a t ≡ some r
      → IsConsistent r.0.man
  add-IsConsistent d penalty a t r k e =
      subst (OnSome (λ r. IsConsistent r.0.man)) e (add-OnSome d penalty a t k)
