-- ===== src/Core/OutPoint/Order.antt =====
-- core.h, COutPoint: the order and the equality by which the containers compare outpoints.
use tri_tip.Prelude.{◌≡◌, arith, false, true}
use tri_tip.Core.OutPoint.{OutPoint, equal, less}

-- Two outpoints are `==` exactly when they are the same outpoint.
pub equal_sound : (a b : OutPoint) → equal a b ≡ true → a ≡ b
unfolding equal
equal_sound a b h = ground arith

pub equal_refl : (a : OutPoint) → equal a a ≡ true
unfolding equal
equal_refl a = ground arith

-- The order of outpoints is a strict total order: irreflexive, transitive, and of any two
-- outpoints one is below the other or they are equal, never two of these at once.
pub less_strict_total :
    (a b c : OutPoint)
    → (less a a ≡ false)
      × (less a b ≡ true → less b c ≡ true → less a c ≡ true)
      × (less a b ≡ false → less b a ≡ false → equal a b ≡ true)
      × (less a b ≡ true → (less b a ≡ false) × (equal a b ≡ false))
unfolding less equal
less_strict_total a b c = ground arith
