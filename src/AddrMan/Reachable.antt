-- ===== src/AddrMan/Reachable.antt =====
-- addrman.h, addrman.cpp: the states that the operations reach from the empty address manager.
use mathlib.Core.Bool.{Bool}
use tri_tip.Prelude.{[]}
use tri_tip.Prelude.{arith, List, some, sym, ℕ, ◌<◌, ◌≡◌, ◌∙◌}
use mathlib.Core.Path.{subst}
use mathlib.Core.Option.{some-injective}
use tri_tip.Prelude.Maps.{find}
use tri_tip.AddrMan.{Info, AddrMan, empty, attempt, connected, get_addr}
use tri_tip.AddrMan.Consistent.{pos_in, addr_in, IsConsistent}
use tri_tip.AddrMan.Entries.{attempt-IsConsistent, connected-IsConsistent}
use tri_tip.AddrMan.New.{release}
use tri_tip.AddrMan.Add.{Address, Table, Draw, add}
use tri_tip.AddrMan.Added.{add-IsConsistent}
use tri_tip.AddrMan.Shrinks.{release-IsConsistent}
use tri_tip.AddrMan.Addresses.{Gives, get_addr-Gives}

unfoldable pub empty_table : Table
unfolding empty
empty_table = record { man = empty; buckets = λ n. [] }

-- Attempt_, Connected_ and GetAddr_ leave the buckets.
unfoldable pub with_man : AddrMan → Table → Table
with_man s t = record t { man = s }

-- No call goes on from a failed assertion.
pub data Reachable (bucket_size : ℕ) : Table → Type 0 where
  start : Reachable bucket_size empty_table
  added :
      (t : Table) (d : Draw) (penalty : ℕ) (a : Address) (r : Table × Bool)
      → Reachable bucket_size t
      → add bucket_size d penalty a t ≡ some r
      → Reachable bucket_size r.0
  attempted_at :
      (t : Table) (addr port time : ℕ)
      → Reachable bucket_size t
      → Reachable bucket_size (with_man (attempt addr port time t.man) t)
  connected_at :
      (t : Table) (addr port time : ℕ)
      → Reachable bucket_size t
      → Reachable bucket_size (with_man (connected addr port time t.man) t)
  shuffled :
      (t : Table) (s : AddrMan) (infos : List Info) (random_int : ℕ → ℕ → ℕ)
      → Reachable bucket_size t
      → ((i m : ℕ) → 0 < m → random_int i m < m)
      → get_addr random_int t.man ≡ some (infos, s)
      → Reachable bucket_size (with_man s t)

empty-IsConsistent : IsConsistent empty
unfolding empty pos_in addr_in
empty-IsConsistent = record {
  listed = λ p id e. ground (arith, e);
  placed = λ id p e. ground (arith, e);
  named = λ id a e. ground (arith, e);
  known = λ a id e. ground (arith, e);
  below = λ id p e. ground (arith, e);
}

Reachable-IsConsistent :
    (bucket_size : ℕ) (t : Table) → Reachable bucket_size t → IsConsistent t.man
unfolding empty_table with_man
Reachable-IsConsistent n t start = empty-IsConsistent
Reachable-IsConsistent n t (added u d penalty a result r e) =
    add-IsConsistent n d penalty a u result (Reachable-IsConsistent n u r) e
Reachable-IsConsistent n t (attempted_at u addr port time r) =
    attempt-IsConsistent u.man addr port time (Reachable-IsConsistent n u r)
Reachable-IsConsistent n t (connected_at u addr port time r) =
    connected-IsConsistent u.man addr port time (Reachable-IsConsistent n u r)
Reachable-IsConsistent n t (shuffled u s infos random_int r below e) =
    let c = get_addr-Gives random_int u.man below (Reachable-IsConsistent n u r) in
    subst (λ r. IsConsistent r.1) (some-injective (c.0, c.1) (infos, s) (sym c.2 ∙ e))
      c.3.consistent

-- What the states that are reached keep to
pub record Safe (s : AddrMan) : Type 0 where
  pub consistent : IsConsistent s
  pub releases :
      (id : ℕ) (info : Info)
      → find id s.map_info ≡ some info
      → (t : AddrMan) × (release id info s ≡ some t)
  pub gives :
      (random_int : ℕ → ℕ → ℕ)
      → ((i m : ℕ) → 0 < m → random_int i m < m)
      → (infos : List Info) × (t : AddrMan) × (get_addr random_int s ≡ some (infos, t))
        × Gives s infos t

-- In every state that Add_, Attempt_, Connected_ and GetAddr_ reach from the empty one, in any order, the
-- vector has each number of the table once, at the position that the table has for it, and the map of addresses has
-- exactly the addresses of the table. No assertion of SwapRandom fails in it when ShrinkNew takes an entry
-- of the table out of a bucket, nor any in GetAddr_, which gives 23 percent of the addresses, rounded down, or 2500 when
-- that is more, distinct and all in the table, when GetRandInt gives a number below its bound. Add_ calls Create and
-- ShrinkNew; a run ends where an assertion fails in it.
pub Reachable-Safe : (bucket_size : ℕ) (t : Table) → Reachable bucket_size t → Safe t.man
Reachable-Safe n t r = record {
  consistent = Reachable-IsConsistent n t r;
  releases = λ id info f.
      let c = release-IsConsistent t.man id info (Reachable-IsConsistent n t r) f in (c.0, c.1);
  gives = λ random_int below. get_addr-Gives random_int t.man below (Reachable-IsConsistent n t r);
}
