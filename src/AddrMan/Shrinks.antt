-- ===== src/AddrMan/Shrinks.antt =====
-- addrman.cpp: ShrinkNew and the consistency of the indices.
use mathlib.Core.Bool.{Bool, false, true}
use tri_tip.Prelude.{
  arith, if◌then◌else◌, List, none, Option, refl, some, sym, ℕ, ◌==◌, ◌≡◌, ◌∷◌, [],
}
use mathlib.Core.Path.{subst}
use tri_tip.Prelude.{◌>>=◌}
use tri_tip.Prelude.Maps.{find, assign, find-assign}
use tri_tip.AddrMan.{Info, AddrMan, remove_entry}
use tri_tip.AddrMan.Consistent.{IsConsistent}
use tri_tip.AddrMan.Entries.{touched-IsConsistent, remove_entry-IsConsistent}
use tri_tip.AddrMan.New.{
  erase, is_terrible, first_terrible, fewer, release, release_from, oldest_of, release_oldest,
  shrink_found, shrink_new,
}

-- The release of an entry that the table has fails no assertion.
pub release-IsConsistent :
    (s : AddrMan) (id : ℕ) (info : Info)
    → IsConsistent s
    → find id s.map_info ≡ some info
    → (t : AddrMan) × (release id info s ≡ some t) × IsConsistent t
unfolding release fewer
release-IsConsistent s id info k f = step ((fewer info).ref_count == 0)
  where
    t : AddrMan
    t = record s { map_info = assign id (fewer info) s.map_info }

    t-IsConsistent : IsConsistent t
    t-IsConsistent = touched-IsConsistent s id info (fewer info) k f refl refl

    step :
        (b : Bool)
        → (u : AddrMan) × ((if b then remove_entry id (fewer info) t else some t) ≡ some u)
          × IsConsistent u
    step true =
        remove_entry-IsConsistent t id (fewer info) t-IsConsistent
          (ground (arith, find-assign id id (fewer info) s.map_info))
    step false = (t, refl, t-IsConsistent)

-- What a call leaves when it returns
After : Option (AddrMan × List ℕ × ℕ) → Type 0
After none = Unit {0}
After (some r) = IsConsistent r.0

release_from-After :
    (bucket : List ℕ) (code id : ℕ) (info : Info) (s : AddrMan)
    → IsConsistent s
    → find id s.map_info ≡ some info
    → After (release_from bucket code id info s)
unfolding After release_from
release_from-After bucket code id info s k f =
    let r = release-IsConsistent s id info k f in
    subst (λ o. After (o >>= (λ t. some (t, erase id bucket, code)))) (sym r.1) r.2

release_oldest-After :
    (bucket : List ℕ) (s : AddrMan) (o : Option ℕ)
    → IsConsistent s
    → After (release_oldest bucket s o)
unfolding After release_oldest
release_oldest-After bucket s none k = tt
release_oldest-After bucket s (some id) k = step (find id s.map_info) refl
  where
    step :
        (o : Option Info)
        → find id s.map_info ≡ o
        → After (o >>= (λ info. release_from bucket 1 id info s))
    step none e = tt
    step (some info) e = release_from-After bucket 1 id info s k e

-- What the first loop finds is an entry.
IsEntry : List (ℕ × Info) → Option (Option (ℕ × Info)) → Type 0
IsEntry m none = Unit {0}
IsEntry m (some none) = Unit {0}
IsEntry m (some (some (id, info))) = find id m ≡ some info

first_terrible-IsEntry :
    (now : ℕ) (m : List (ℕ × Info)) (ids : List ℕ) → IsEntry m (first_terrible now m ids)
unfolding first_terrible IsEntry
first_terrible-IsEntry now m [] = tt
first_terrible-IsEntry now m (id ∷ ids) = step (first_terrible-IsEntry now m ids) (find id m) refl
  where
    found :
        (info : Info) (b : Bool)
        → IsEntry m (first_terrible now m ids)
        → find id m ≡ some info
        → IsEntry m (if b then some (some (id, info)) else first_terrible now m ids)
    found info true ih e = e
    found info false ih e = ih

    step :
        IsEntry m (first_terrible now m ids)
        → (o : Option Info) → find id m ≡ o
        → IsEntry m (
            o >>= (λ info.
              if is_terrible now info then some (some (id, info)) else first_terrible now m ids))
    step ih none e = tt
    step ih (some info) e = found info (is_terrible now info) ih e

shrink_found-After :
    (picks : ℕ → Bool) (bucket : List ℕ) (s : AddrMan) (o : Option (ℕ × Info))
    → IsConsistent s
    → IsEntry s.map_info (some o)
    → After (shrink_found picks bucket s o)
unfolding After shrink_found IsEntry
shrink_found-After picks bucket s (some (id, info)) k f = release_from-After bucket 0 id info s k f
shrink_found-After picks bucket s none k f = step (oldest_of picks s.map_info 0 none bucket)
  where
    step : (o : Option (Option ℕ)) → After (o >>= (λ x. release_oldest bucket s x))
    step none = tt
    step (some x) = release_oldest-After bucket s x k

shrink_new-After :
    (picks : ℕ → Bool) (now : ℕ) (bucket : List ℕ) (s : AddrMan)
    → IsConsistent s
    → After (shrink_new picks now bucket s)
unfolding After shrink_new IsEntry
shrink_new-After picks now bucket s k =
    step (first_terrible now s.map_info bucket) (first_terrible-IsEntry now s.map_info bucket)
  where
    step :
        (o : Option (Option (ℕ × Info)))
        → IsEntry s.map_info o
        → After (o >>= (λ x. shrink_found picks bucket s x))
    step none e = tt
    step (some x) e = shrink_found-After picks bucket s x k e

pub shrink_new-IsConsistent :
    (picks : ℕ → Bool) (now : ℕ) (bucket : List ℕ) (s : AddrMan) (r : AddrMan × List ℕ × ℕ)
    → IsConsistent s
    → shrink_new picks now bucket s ≡ some r
    → IsConsistent r.0
unfolding After
shrink_new-IsConsistent picks now bucket s r k e =
    subst After e (shrink_new-After picks now bucket s k)
