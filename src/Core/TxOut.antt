-- ===== src/Core/TxOut.antt =====
-- core.h, CTxOut. An int64 amount is an integer.
use mathlib.Core.Bool.{◌&&◌, Bool}
use tri_tip.Prelude.{ℕ, List, []}
use tri_tip.Prelude.Equality.{bytes_eq, eq_ℤ}
use tri_tip.Prelude.Int.{ℤ, negsuc}

pub record TxOut : Type 0 where
  pub value : ℤ
  pub script_pub_key : List ℕ

-- `SetNull`: the value -1 and no script. `IsNull` looks at the value alone.
unfoldable pub null : TxOut
null = record { value = negsuc 0; script_pub_key = [] }

unfoldable pub is_null : TxOut → Bool
is_null o = eq_ℤ o.value (negsuc 0)

unfoldable pub equal : TxOut → TxOut → Bool
equal a b = eq_ℤ a.value b.value && bytes_eq a.script_pub_key b.script_pub_key
