-- ===== src/Bloom/Members.antt =====
-- bloom.cpp: insert and contains.
use tri_tip.Bloom.Bits.{bit_at-full}
use tri_tip.Bloom.Bits.{first_byte_full}
use tri_tip.Bloom.{max_bloom_filter_size}
use Prim.Native.Nat.{min}
use tri_tip.Prelude.{length-replicate}
use tri_tip.Bloom.{new}
use tri_tip.Bloom.{is_within_size_constraints}
use mathlib.Core.Bool.{Bool, false, true}
use mathlib.Core.Path.{subst}
use tri_tip.Prelude.{
  arith, Bool-cases, if◌then◌else◌, inl, inr, length, List, refl, length-set, some, suc, sym, zero,
  ℕ, ◌%◌, ◌*◌, ◌+◌, ◌/◌, ◌<◌, ◌≡◌, ◌∙◌, ◌⊎◌,
}
use tri_tip.Bloom.{u32}
use tri_tip.Bloom.{murmur_hash3}
use tri_tip.Bloom.Bits.{AllBytes, bit_at-set_bit, set_bit-AllBytes}
use tri_tip.Bloom.{
  BloomFilter, bit_at, contains, contains_loop, hash, insert, insert_loop, is_full, set_bit,
}

-- The index of the `num`-th bit of a key, in a filter of `size` bytes.
unfoldable pub index : ℕ → ℕ → List ℕ → ℕ → ℕ
index size tweak key num = murmur_hash3 (u32 (num * 0xFBA4C795 + tweak)) key % (size * 8)

index-lt :
    (size tweak : ℕ) (key : List ℕ) (num : ℕ) → 0 < size → index size tweak key num < size * 8
unfolding index
index-lt size tweak key num h = omega arith

hash-index :
    (num : ℕ) (key : List ℕ) (f : BloomFilter) {size : ℕ}
    → length f.bytes ≡ size
    → 0 < size
    → hash num key f ≡ some (index size f.tweak key num)
unfolding hash index
hash-index num key f e h = ground arith

-- A filter that the node may use: bytes, and at least one.
pub record IsValid (f : BloomFilter) : Type 0 where
  pub some_bytes : 0 < length f.bytes
  pub all_bytes : AllBytes f.bytes

-- `g` is `f` with more bits set.
pub record Grows (f g : BloomFilter) : Type 0 where
  pub size : length g.bytes ≡ length f.bytes
  pub hash_funcs : g.hash_funcs ≡ f.hash_funcs
  pub tweak : g.tweak ≡ f.tweak
  pub flags : g.flags ≡ f.flags
  pub all_bytes : AllBytes g.bytes
  pub keeps : (j : ℕ) → bit_at f.bytes j ≡ true → bit_at g.bytes j ≡ true

set_bit-Grows :
    (f : BloomFilter) (i : ℕ)
    → IsValid f
    → i < length f.bytes * 8
    → Grows f (record f { bytes = set_bit f.bytes i })
set_bit-Grows f i v lt = record {
  size = unfold set_bit in length-set f.bytes (i / 8) _;
  hash_funcs = refl;
  tweak = refl;
  flags = refl;
  all_bytes = set_bit-AllBytes f.bytes i v.all_bytes;
  keeps = λ j h. ground (arith, bit_at-set_bit f.bytes i j v.all_bytes lt);
}

pub Grows-refl : (f : BloomFilter) → IsValid f → Grows f f
Grows-refl f v = record {
  size = refl;
  hash_funcs = refl;
  tweak = refl;
  flags = refl;
  all_bytes = v.all_bytes;
  keeps = λ j h. h;
}

pub Grows-trans : (f g h : BloomFilter) → Grows f g → Grows g h → Grows f h
Grows-trans f g h p q = record {
  size = q.size ∙ p.size;
  hash_funcs = q.hash_funcs ∙ p.hash_funcs;
  tweak = q.tweak ∙ p.tweak;
  flags = q.flags ∙ p.flags;
  all_bytes = q.all_bytes;
  keeps = λ j b. q.keeps j (p.keeps j b);
}

pub Grows-IsValid : (f g : BloomFilter) → IsValid f → Grows f g → IsValid g
Grows-IsValid f g v p = record { some_bytes = omega (arith, p.size); all_bytes = p.all_bytes }

-- The bits that the rounds from `i` on look at are set.
abbrev AllSet : ℕ → ℕ → List ℕ → BloomFilter → Type 0
AllSet zero i key f = Unit {0}
AllSet (suc n) i key f =
    (bit_at f.bytes (index (length f.bytes) f.tweak key i) ≡ true) × AllSet n (i + 1) key f

AllSet-Grows :
    (n i : ℕ) (key : List ℕ) (f g : BloomFilter) → Grows f g → AllSet n i key f → AllSet n i key g
AllSet-Grows zero i key f g p s = tt
AllSet-Grows (suc n) i key f g p s =
    (rw (p.size, p.tweak) (p.keeps _ s.0), AllSet-Grows n (i + 1) key f g p s.1)

insert_loop-AllSet :
    (n i : ℕ) (key : List ℕ) (f : BloomFilter)
    → IsValid f
    → (g : BloomFilter) × (insert_loop n i key f ≡ some g) × Grows f g × AllSet n i key g
unfolding insert_loop
insert_loop-AllSet zero i key f v = (f, refl, Grows-refl f v, tt)
insert_loop-AllSet (suc n) i key f v =
    let k = index (length f.bytes) f.tweak key i in
    let lt = index-lt (length f.bytes) f.tweak key i v.some_bytes in
    let f' = record f { bytes = set_bit f.bytes k } in
    let step = set_bit-Grows f k v lt in
    let (g, run, grows, all_set) =
      insert_loop-AllSet n (i + 1) key f' (Grows-IsValid f f' v step) in
    (
      g,
      rw (hash-index i key f refl v.some_bytes) run,
      Grows-trans f f' g step grows,
      (
        rw (grows.size, step.size, grows.tweak)
            (grows.keeps k (ground (arith, bit_at-set_bit f.bytes k k v.all_bytes lt))),
        all_set,
      ),
    )

contains_loop-AllSet :
    (n i : ℕ) (key : List ℕ) (f : BloomFilter)
    → IsValid f
    → (AllSet n i key f → contains_loop n i key f ≡ some true)
      × (contains_loop n i key f ≡ some true → AllSet n i key f)
unfolding contains_loop
contains_loop-AllSet zero i key f v = ((λ s. refl), λ e. tt)
contains_loop-AllSet (suc n) i key f v =
    ground (arith, hash-index i key f refl v.some_bytes, contains_loop-AllSet n (i + 1) key f v)

contains-AllSet :
    (key : List ℕ) (f : BloomFilter)
    → IsValid f
    → contains key f ≡ some true
    → (is_full f ≡ true) ⊎ AllSet f.hash_funcs 0 key f
unfolding contains
contains-AllSet key f v h = elim (Bool-cases (is_full f)) [
  | inl e ↦ inl e
  | inr e ↦ inr ((contains_loop-AllSet f.hash_funcs 0 key f v).1 (rw e at h))
]

AllSet-contains :
    (key : List ℕ) (f : BloomFilter)
    → IsValid f
    → AllSet f.hash_funcs 0 key f
    → contains key f ≡ some true
unfolding contains
AllSet-contains key f v s = ground (arith, (contains_loop-AllSet f.hash_funcs 0 key f v).0 s)

-- On a filter that is not empty `insert` does not divide by zero, only sets bits, and leaves a
-- filter that contains the key.
pub contains-insert :
    (key : List ℕ) (f : BloomFilter)
    → IsValid f
    → (g : BloomFilter) × (insert key f ≡ some g) × Grows f g × (contains key g ≡ some true)
unfolding insert
contains-insert key f v = elim (Bool-cases (is_full f)) [
  | inl full ↦ (f, rw full, Grows-refl f v, unfold contains in rw full)
  | inr e ↦
      let (g, run, grows, all_set) = insert_loop-AllSet f.hash_funcs 0 key f v in
      (
        g,
        rw e run,
        grows,
        AllSet-contains key g (Grows-IsValid f g v grows) (rw grows.hash_funcs all_set),
      )
]

is_full-Grows : (f g : BloomFilter) → Grows f g → is_full f ≡ true → is_full g ≡ true
unfolding is_full
is_full-Grows f g p h = ground (
  arith,
  p.size,
  first_byte_full g.bytes p.all_bytes (λ j lt. p.keeps j (bit_at-full f.bytes j (ground arith) lt)),
)

-- What a filter contains, a filter with more bits set contains.
pub contains-Grows :
    (key : List ℕ) (f g : BloomFilter)
    → IsValid f
    → Grows f g
    → contains key f ≡ some true
    → contains key g ≡ some true
contains-Grows key f g v grows h = elim (contains-AllSet key f v h) [
  | inl full ↦ unfold contains in rw (is_full-Grows f g grows full)
  | inr s ↦ AllSet-contains key g (Grows-IsValid f g v grows) (
      subst (λ n. AllSet n 0 key g) (sym grows.hash_funcs)
        (AllSet-Grows f.hash_funcs 0 key f g grows s))
]

-- No false negatives: what a filter contains it contains after any insertion.
pub contains-insert_other :
    (key other : List ℕ) (f : BloomFilter)
    → IsValid f
    → contains key f ≡ some true
    → (g : BloomFilter) × (insert other f ≡ some g) × (contains key g ≡ some true)
contains-insert_other key other f v h =
    let (g, run, grows, _) = contains-insert other f v in (g, run, contains-Grows key f g v grows h)

-- Whatever the two logarithms give, the constructor keeps within the limits of the protocol.
pub new-is_within_size_constraints :
    (bits : ℕ) (funcs : ℕ → ℕ) (tweak flags : ℕ)
    → is_within_size_constraints (new bits funcs tweak flags) ≡ true
unfolding is_within_size_constraints new
new-is_within_size_constraints bits funcs tweak flags =
    ground (arith, length-replicate {A = ℕ} (min bits (max_bloom_filter_size * 8) / 8) 0)

contains_loop-total :
    (n i : ℕ) (key : List ℕ) (f : BloomFilter)
    → IsValid f
    → (b : Bool) × (contains_loop n i key f ≡ some b)
unfolding contains_loop
contains_loop-total zero i key f v = (true, refl)
contains_loop-total (suc n) i key f v =
    let k = index (length f.bytes) f.tweak key i in
    let (b, run) = contains_loop-total n (i + 1) key f v in
    (
      if bit_at f.bytes k then b else false,
      rw (hash-index i key f refl v.some_bytes) (ground (arith, run)),
    )

-- On a filter that is not empty `contains` does not divide by zero.
pub contains-total :
    (key : List ℕ) (f : BloomFilter) → IsValid f → (b : Bool) × (contains key f ≡ some b)
unfolding contains
contains-total key f v =
    let (b, run) = contains_loop-total f.hash_funcs 0 key f v in
    (if is_full f then true else b, ground (arith, run))
