-- ===== src/Net/Frames/Read.antt =====
-- net.cpp: readHeader on a whole header and readData on all the data.
use mathlib.Core.Path.{ap₂}
use mathlib.Core.Bool.{false}
use tri_tip.Prelude.{arith, length, ltb, refl, some, sym, ℕ, ◌≡◌, ◌∙◌, ◌≤◌}
use tri_tip.Net.{Protocol, copy_to, end_header, read}
use tri_tip.Net.Bytes.{header-at, data-at, read-data, read-header}
use tri_tip.Net.Buffers.{copy_to-all, take-whole, empty_of_length, length-resize}
use tri_tip.Net.Frames.{Frame, IsFrame, received, headed}

module _ (P : Protocol) where
  end_header-headed :
      (f : Frame × P.Header)
      → IsFrame P f.0 f.1
      → end_header P 24 (record P.fresh { hdr_buf = f.0.head; hdr_pos = 24 })
        ≡ (some 24, headed P f)
  unfolding IsFrame headed end_header
  end_header-headed f (l, p, s, b) =
      rw p (rw (within P.max_size (P.message_size f.1) (omega (arith, s))) refl)
    where
      within : (a b : ℕ) → b ≤ a → ltb a b ≡ false
      within a b h = ground arith

  pub read-head :
      (f : Frame × P.Header) → IsFrame P f.0 f.1 → read P f.0.head P.fresh ≡ (some 24, headed P f)
  unfolding IsFrame
  read-head f (l, p, s, b) =
      read-header P f.0.head P.fresh P.fresh_in_data
      ∙ header-at P 24 f.0.head P.fresh (omega (arith, l, P.fresh_hdr_pos))
      ∙ ap₂ (λ buf pos. end_header P 24 (record P.fresh { hdr_buf = buf; hdr_pos = pos }))
          (ap₂ (copy_to P.fresh.hdr_buf) P.fresh_hdr_pos (take-whole 24 f.0.head l)
            ∙ copy_to-all P.fresh.hdr_buf f.0.head (omega (arith, l, P.fresh_hdr_buf)))
          (omega (arith, P.fresh_hdr_pos))
      ∙ end_header-headed f (l, p, s, b)

  pub read-payload :
      (f : Frame × P.Header)
      → IsFrame P f.0 f.1
      → read P f.0.payload (headed P f) ≡ (some (length f.0.payload), received P f)
  unfolding IsFrame headed received
  read-payload f (l, p, s, b) =
      read-data P f.0.payload (headed P f) refl
      ∙ data-at P (length f.0.payload) f.0.payload (headed P f) (omega (arith, s, P.fresh_data_pos))
      ∙ ap₂
          (λ bytes pos.
            (some (length f.0.payload), record (headed P f) { recv = bytes; data_pos = pos }))
          (ap₂ (copy_to (headed P f).recv) P.fresh_data_pos
              (take-whole (length f.0.payload) f.0.payload refl)
            ∙ copy_to-all (headed P f).recv f.0.payload
                (omega (arith, s, length-resize (P.message_size f.1) P.fresh.recv)))
          (omega (arith, P.fresh_data_pos))

  pub headed-received :
      (f : Frame × P.Header)
      → IsFrame P f.0 f.1
      → length f.0.payload ≡ 0
      → headed P f ≡ received P f
  unfolding IsFrame headed received
  headed-received f (l, p, s, b) e =
      ap₂ (λ bytes pos. record (headed P f) { recv = bytes; data_pos = pos })
        (empty_of_length (headed P f).recv
            (omega (arith, s, e, length-resize (P.message_size f.1) P.fresh.recv))
          ∙ sym (empty_of_length f.0.payload e))
        (omega (arith, e, P.fresh_data_pos))
