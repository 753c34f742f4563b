-- ===== src/Core/Codec.antt =====
-- Serialisers that core.h calls and that other headers define (VARINT of serialize.h, and
-- CTxOutCompressor, whose CompressAmount is defined in main.cpp): a value is written as a run of
-- bytes and read back from the front of a stream, and
-- `size` (GetSerializeSize) is the number of bytes that it takes. `Fits` are the values that the format can hold.
use tri_tip.Prelude.{length, ◌++◌, ◌≡◌, List, Option, some, ℕ}

pub record Codec (A : Type 0) : Type 1 where
  pub Fits : A → Type 0
  pub put : A → List ℕ
  pub get : List ℕ → Option (A × List ℕ)
  pub size : A → ℕ
  pub size-put : (a : A) → size a ≡ length (put a)
  pub get-put : (a : A) (rest : List ℕ) → Fits a → get (put a ++ rest) ≡ some (a, rest)
