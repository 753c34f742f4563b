-- ===== src/Net/Bytes.antt =====
-- net.cpp: what readHeader and readData do with a byte more.
use mathlib.Core.Bool.{false, true}
use tri_tip.Prelude.{
  ap, arith, Bool-cases, if◌then◌else◌, inl, inr, length, List, none, Option, refl, set, some, suc,
  sym, take, ℕ, ◌+◌, ◌-◌, ◌<◌, ◌≡◌, ◌∙◌, ◌∷◌, [],
}
use Prim.Native.Nat.{min}
use tri_tip.Net.{Message, Protocol, end_header, read_header, read_data, read, copy_to}

module _ (P : Protocol) where
  -- The bytes that the message waits for, at the least.
  unfoldable pub missing : Message P.Header → ℕ
  missing m = if m.in_data then P.message_size m.hdr - m.data_pos else 24 - m.hdr_pos

  -- One more byte handled, before those of the result.
  unfoldable pub one_more : Option ℕ × Message P.Header → Option ℕ × Message P.Header
  one_more r = (elim r.0 [ none ↦ none | some n ↦ some (suc n) ], r.1)

  end_header-suc :
      (n : ℕ) (m : Message P.Header) → end_header P (suc n) m ≡ one_more (end_header P n m)
  unfolding one_more end_header
  end_header-suc n m = ground arith

  unfoldable pub header_byte : ℕ → Message P.Header → Message P.Header
  unfolding copy_to
  header_byte b m = record m {
    hdr_buf = copy_to m.hdr_buf m.hdr_pos (b ∷ []);
    hdr_pos = m.hdr_pos + 1;
  }

  unfoldable pub data_byte : ℕ → Message P.Header → Message P.Header
  unfolding copy_to
  data_byte b m = record m { recv = copy_to m.recv m.data_pos (b ∷ []); data_pos = m.data_pos + 1 }

  unfoldable pub take_byte : ℕ → Message P.Header → Message P.Header
  unfolding header_byte data_byte
  take_byte b m = if m.in_data then data_byte b m else header_byte b m

  pub read-data :
      (bytes : List ℕ) (m : Message P.Header)
      → m.in_data ≡ true
      → read P bytes m ≡ read_data P bytes m
  unfolding read
  read-data bytes m e = rw e

  pub read-header :
      (bytes : List ℕ) (m : Message P.Header)
      → m.in_data ≡ false
      → read P bytes m ≡ read_header P bytes m
  unfolding read
  read-header bytes m e = rw e

  pub header-at :
      (n : ℕ) (bytes : List ℕ) (m : Message P.Header)
      → min (24 - m.hdr_pos) (length bytes) ≡ n
      → read_header P bytes m
        ≡ end_header P n (record m {
          hdr_buf = copy_to m.hdr_buf m.hdr_pos (take n bytes);
          hdr_pos = m.hdr_pos + n;
        })
  unfolding read_header
  header-at n bytes m e =
      ap
        (λ k. end_header P k (record m {
          hdr_buf = copy_to m.hdr_buf m.hdr_pos (take k bytes);
          hdr_pos = m.hdr_pos + k;
        }))
        e

  pub data-at :
      (n : ℕ) (bytes : List ℕ) (m : Message P.Header)
      → min (P.message_size m.hdr - m.data_pos) (length bytes) ≡ n
      → read_data P bytes m ≡ (
        some n,
        record m { recv = copy_to m.recv m.data_pos (take n bytes); data_pos = m.data_pos + n },
      )
  unfolding read_data
  data-at n bytes m e =
      ap
        (λ k. (
          some k,
          record m { recv = copy_to m.recv m.data_pos (take k bytes); data_pos = m.data_pos + k },
        ))
        e

  header-more :
      (b c : ℕ) (bs : List ℕ) (m : Message P.Header)
      → 1 < 24 - m.hdr_pos
      → read_header P (b ∷ c ∷ bs) m ≡ one_more (read_header P (c ∷ bs) (header_byte b m))
  unfolding copy_to header_byte
  header-more b c bs m h =
      header-at (suc n) (b ∷ c ∷ bs) m (omega arith)
      ∙ end_header-suc n _
      ∙ ap
          (λ k. one_more (
            end_header P n (record m {
              hdr_buf = copy_to (set m.hdr_buf m.hdr_pos b) (m.hdr_pos + 1) (take n (c ∷ bs));
              hdr_pos = k;
            })))
          (omega arith)
      ∙ ap one_more (sym (header-at n (c ∷ bs) (header_byte b m) refl))
    where
      n : ℕ
      n = min (24 - (m.hdr_pos + 1)) (length (c ∷ bs))

  data-more :
      (b c : ℕ) (bs : List ℕ) (m : Message P.Header)
      → 1 < P.message_size m.hdr - m.data_pos
      → read_data P (b ∷ c ∷ bs) m ≡ one_more (read_data P (c ∷ bs) (data_byte b m))
  unfolding copy_to data_byte one_more
  data-more b c bs m h =
      data-at (suc n) (b ∷ c ∷ bs) m (omega arith)
      ∙ ap
          (λ k. (
            some (suc n),
            record m {
              recv = copy_to (set m.recv m.data_pos b) (m.data_pos + 1) (take n (c ∷ bs));
              data_pos = k;
            },
          ))
          (omega arith)
      ∙ ap one_more (sym (data-at n (c ∷ bs) (data_byte b m) refl))
    where
      n : ℕ
      n = min (P.message_size m.hdr - (m.data_pos + 1)) (length (c ∷ bs))

  pub missing-data :
      (m : Message P.Header) → m.in_data ≡ true → missing m ≡ P.message_size m.hdr - m.data_pos
  unfolding missing
  missing-data m e = rw e

  pub missing-header : (m : Message P.Header) → m.in_data ≡ false → missing m ≡ 24 - m.hdr_pos
  unfolding missing
  missing-header m e = rw e

  -- A byte that is the last one the message waits for is handled alone.
  pub read-last :
      (b : ℕ) (bs : List ℕ) (m : Message P.Header)
      → missing m ≡ 1
      → read P (b ∷ bs) m ≡ read P (b ∷ []) m
  read-last b bs m h = elim (Bool-cases m.in_data) [
    | inl e ↦
        read-data (b ∷ bs) m e
        ∙ data-at 1 (b ∷ bs) m (omega (arith, missing-data m e))
        ∙ sym (data-at 1 (b ∷ []) m (omega (arith, missing-data m e)))
        ∙ sym (read-data (b ∷ []) m e)
    | inr e ↦
        read-header (b ∷ bs) m e
        ∙ header-at 1 (b ∷ bs) m (omega (arith, missing-header m e))
        ∙ sym (header-at 1 (b ∷ []) m (omega (arith, missing-header m e)))
        ∙ sym (read-header (b ∷ []) m e)
  ]

  header-single :
      (b : ℕ) (m : Message P.Header)
      → 1 < 24 - m.hdr_pos
      → end_header P 1 (header_byte b m) ≡ (some 1, header_byte b m)
  unfolding end_header header_byte
  header-single b m h = ground arith

  pub read-single :
      (b : ℕ) (m : Message P.Header) → 1 < missing m → read P (b ∷ []) m ≡ (some 1, take_byte b m)
  unfolding take_byte
  read-single b m h = elim (Bool-cases m.in_data) [
    | inl e ↦ read-data (b ∷ []) m e ∙ data-at 1 (b ∷ []) m (omega (arith, missing-data m e)) ∙ rw e
    | inr e ↦
        read-header (b ∷ []) m e
        ∙ header-at 1 (b ∷ []) m (omega (arith, missing-header m e))
        ∙ header-single b m (omega (arith, missing-header m e))
        ∙ rw e
  ]

  -- A byte that is not the last one can be handled before the others.
  pub read-more :
      (b c : ℕ) (bs : List ℕ) (m : Message P.Header)
      → 1 < missing m
      → read P (b ∷ c ∷ bs) m ≡ one_more (read P (c ∷ bs) (take_byte b m))
  unfolding take_byte
  read-more b c bs m h = elim (Bool-cases m.in_data) [
    | inl e ↦
        read-data (b ∷ c ∷ bs) m e
        ∙ data-more b c bs m (omega (arith, missing-data m e))
        ∙ ap one_more (sym (read-data (c ∷ bs) (data_byte b m) e))
        ∙ ap (λ t. one_more (read P (c ∷ bs) (if t then data_byte b m else header_byte b m)))
            (sym e)
    | inr e ↦
        read-header (b ∷ c ∷ bs) m e
        ∙ header-more b c bs m (omega (arith, missing-header m e))
        ∙ ap one_more (sym (read-header (c ∷ bs) (header_byte b m) e))
        ∙ ap (λ t. one_more (read P (c ∷ bs) (if t then data_byte b m else header_byte b m)))
            (sym e)
  ]

  pub missing-take_byte : (b : ℕ) (m : Message P.Header) → missing (take_byte b m) ≡ missing m - 1
  unfolding missing take_byte
  missing-take_byte b m = ground arith
