-- ===== src/Core/OutPoint.antt =====
-- core.h, COutPoint. A uint256 is a number, and an unsigned int its value below 2 ^ 32.
pub mod Order
use mathlib.Core.Bool.{◌&&◌, ◌||◌, Bool}
use tri_tip.Prelude.{ℕ, ◌-◌, ◌==◌, ◌^◌, ltb}

abbrev pub uint_max : ℕ
uint_max = 2 ^ 32 - 1

pub record OutPoint : Type 0 where
  pub hash : ℕ
  pub n : ℕ

unfoldable pub null : OutPoint
null = record { hash = 0; n = uint_max }

unfoldable pub is_null : OutPoint → Bool
is_null o = o.hash == 0 && o.n == uint_max

unfoldable pub equal : OutPoint → OutPoint → Bool
equal a b = a.hash == b.hash && a.n == b.n

unfoldable pub less : OutPoint → OutPoint → Bool
less a b = ltb a.hash b.hash || (a.hash == b.hash && ltb a.n b.n)
