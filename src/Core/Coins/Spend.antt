-- ===== src/Core/Coins/Spend.antt =====
-- core.h, CCoins::Cleanup, Spend, IsAvailable and IsPruned.
use mathlib.Core.Bool.{◌&&◌, Bool, false, not, true}
use tri_tip.Core.Coins.{
  Coins, cleanup, pop_nulls, push_unless_last, spend, is_available, all_null, is_pruned, complete,
}
use tri_tip.Core.OutPoint.{OutPoint}
use tri_tip.Core.TxInUndo.{TxInUndo, of_txout}
use tri_tip.Core.TxOut
use tri_tip.Core.TxOut.{TxOut}
use tri_tip.Prelude.{
  ap, sym, ◌∙◌, Bool-cases, inl, inr, [], ◌∷◌, List, get_or, if◌then◌else◌, leb, length, ltb, none,
  set, some, ℕ, ◌==◌, arith, refl, zero, suc, ◌≡◌,
}

available_in : List TxOut → ℕ → Bool
available_in [] k = false
available_in (o ∷ os) zero = not (TxOut.is_null o)
available_in (o ∷ os) (suc k) = available_in os k

is_available-in :
    (os : List TxOut) (k : ℕ)
    → (ltb k (length os) && not (TxOut.is_null (get_or os k TxOut.null))) ≡ available_in os k
unfolding available_in
is_available-in [] k = ground arith
is_available-in (o ∷ os) zero = ground arith
is_available-in (o ∷ os) (suc k) = ground (arith, is_available-in os k)

-- No null output stands at the end.
abbrev pub EndsUnspent : List TxOut → Type 0
EndsUnspent [] = Unit {0}
EndsUnspent (o ∷ []) = TxOut.is_null o ≡ false
EndsUnspent (o ∷ p ∷ ps) = EndsUnspent (p ∷ ps)

push-EndsUnspent :
    (o : TxOut) (os : List TxOut) → EndsUnspent os → EndsUnspent (push_unless_last o os)
unfolding push_unless_last
push-EndsUnspent o [] e = elim (Bool-cases (TxOut.is_null o)) [ inl h ↦ rw h tt | inr h ↦ rw h h ]
push-EndsUnspent o (p ∷ ps) e = e

pub pop_nulls-EndsUnspent : (os : List TxOut) → EndsUnspent (pop_nulls os)
unfolding pop_nulls
pop_nulls-EndsUnspent [] = tt
pop_nulls-EndsUnspent (o ∷ os) = push-EndsUnspent o (pop_nulls os) (pop_nulls-EndsUnspent os)

pub pop_nulls-eq_self : (os : List TxOut) → EndsUnspent os → pop_nulls os ≡ os
unfolding pop_nulls push_unless_last
pop_nulls-eq_self [] e = refl
pop_nulls-eq_self (o ∷ []) e = rw e
pop_nulls-eq_self (o ∷ p ∷ ps) e = rw (pop_nulls-eq_self (p ∷ ps) e)

available_push :
    (o : TxOut) (os : List TxOut) (k : ℕ)
    → available_in (push_unless_last o os) k ≡ available_in (o ∷ os) k
unfolding push_unless_last available_in
available_push o [] zero = ground arith
available_push o [] (suc k) = ground arith
available_push o (p ∷ ps) k = refl

available-pop_nulls : (os : List TxOut) (k : ℕ) → available_in (pop_nulls os) k ≡ available_in os k
unfolding pop_nulls available_in
available-pop_nulls [] k = refl
available-pop_nulls (o ∷ os) zero = available_push o (pop_nulls os) zero
available-pop_nulls (o ∷ os) (suc k) =
    available_push o (pop_nulls os) (suc k) ∙ available-pop_nulls os k

available_in-set :
    (os : List TxOut) (i k : ℕ)
    → available_in (set os i TxOut.null) k ≡ (if i == k then false else available_in os k)
unfolding available_in TxOut.null TxOut.is_null
available_in-set [] i k = ground arith
available_in-set (o ∷ os) zero zero = refl
available_in-set (o ∷ os) zero (suc k) = ground arith
available_in-set (o ∷ os) (suc i) zero = ground arith
available_in-set (o ∷ os) (suc i) (suc k) = ground (arith, available_in-set os i k)

all_null-pop_nulls : (os : List TxOut) → all_null os ≡ (length (pop_nulls os) == 0)
unfolding all_null pop_nulls push_unless_last
all_null-pop_nulls [] = refl
all_null-pop_nulls (o ∷ os) = step o os (pop_nulls os) (all_null-pop_nulls os)
  where
    step :
        (o : TxOut) (os ps : List TxOut)
        → all_null os ≡ (length ps == 0)
        → (if TxOut.is_null o then all_null os else false) ≡ (length (push_unless_last o ps) == 0)
    step o os [] ih = ground arith
    step o os (p ∷ ps) ih = ground arith

all_null_trimmed : (os : List TxOut) → all_null (pop_nulls os) ≡ (length (pop_nulls os) == 0)
all_null_trimmed os =
    all_null-pop_nulls (pop_nulls os)
    ∙ ap (λ ps. length ps == 0) (pop_nulls-eq_self (pop_nulls os) (pop_nulls-EndsUnspent os))

-- `Cleanup` changes the availability of no output, and leaves no null output at the end.
pub cleanup_lem :
    (c : Coins) (k : ℕ)
    → (is_available k (cleanup c) ≡ is_available k c) × EndsUnspent (cleanup c).vout
unfolding cleanup is_available
cleanup_lem c k = (
  is_available-in (pop_nulls c.vout) k
      ∙ available-pop_nulls c.vout k
      ∙ sym (is_available-in c.vout k),
  pop_nulls-EndsUnspent c.vout,
)

-- `Spend` fails exactly on an output that is not available.
pub spend-eq-none :
    (out : OutPoint) (c : Coins)
    → (spend out c ≡ none → is_available out.n c ≡ false)
      × (is_available out.n c ≡ false → spend out c ≡ none)
unfolding spend is_available
spend-eq-none out c = ground arith

-- What `Spend` on `out` makes of `c`, with its undo record.
pub record Spends (out : OutPoint) (c : Coins) (u : TxInUndo) (c' : Coins) : Type 0 where
  pub taken : u.txout ≡ get_or c.vout out.n TxOut.null
  pub available : (k : ℕ) → is_available k c' ≡ (if out.n == k then false else is_available k c)
  pub trimmed : EndsUnspent c'.vout
  pub kept : (c'.height ≡ c.height) × (c'.coin_base ≡ c.coin_base) × (c'.version ≡ c.version)
  pub last :
      is_pruned c' ≡ true
      → (u.height ≡ c.height) × (u.coin_base ≡ c.coin_base) × (u.version ≡ c.version)
  pub not_last : is_pruned c' ≡ false → (u.height ≡ 0) × (u.coin_base ≡ false) × (u.version ≡ 0)

-- On an available output `Spend` succeeds: the undo record holds the output, that output alone
-- becomes unavailable, no null output is left at the end of `vout`, the metadata stay, and the
-- undo record has them exactly where no output is left.
pub spend-Spends :
    (out : OutPoint) (c : Coins)
    → is_available out.n c ≡ true
    → (u : TxInUndo) × (c' : Coins) × (spend out c ≡ some (u, c')) × Spends out c u c'
unfolding spend is_available is_pruned
spend-Spends out c h = (
  complete (of_txout (get_or c.vout out.n TxOut.null)) rest,
  rest,
  ground (arith, spent.0, spent.1),
  record {
    taken = ground arith;
    available = λ k.
        (cleanup_lem marked k).0
        ∙ is_available-in (set c.vout out.n TxOut.null) k
        ∙ available_in-set c.vout out.n k
        ∙ ap (λ b. if out.n == k then false else b) (sym (is_available-in c.vout k));
    trimmed = (cleanup_lem marked 0).1;
    kept = ground arith;
    last = ground (arith, all_null_trimmed marked.vout);
    not_last = ground (arith, all_null_trimmed marked.vout);
  },
)
  where
    marked : Coins
    marked = record c { vout = set c.vout out.n TxOut.null }

    rest : Coins
    rest = cleanup marked

    spent :
        (leb (length c.vout) out.n ≡ false)
        × (TxOut.is_null (get_or c.vout out.n TxOut.null) ≡ false)
    spent = ground arith
