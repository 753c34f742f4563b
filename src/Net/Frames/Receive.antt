-- ===== src/Net/Frames/Receive.antt =====
-- net.cpp: ReceiveMsgBytes on the bytes of whole messages, in any pieces.
use mathlib.Core.Bool.{true}
use tri_tip.Prelude.{
  ap, arith, inl, inr, length, List, refl, some, sym, ℕ, ◌<◌, ◌≡◌, ◌∙◌, ◌∷◌, ◌⊎◌, [],
}
use tri_tip.Net.{
  Message, Protocol, read, current, absorb, next_iteration, receive_loop, receive_msg_bytes,
}
use tri_tip.Net.Buffers.{drop-length}
use tri_tip.Net.Frames.{Frame, IsFrame, AreFrames, IsReady, bytes_of, received, enqueue, headed}
use tri_tip.Net.Stream.{BackInBounds, InBounds}
use tri_tip.Net.Pieces.{concat, next_piece, receive_pieces, receive_pieces-concat}
use tri_tip.Net.Frames.Read.{read-head, read-payload, headed-received}

module _ (P : Protocol) where
  -- One iteration, on bytes that are all handled.
  receive_once :
      (bytes : List ℕ) (ms ms' : List (Message P.Header))
      → 0 < length bytes
      → absorb P bytes ms ≡ (some (length bytes), ms')
      → receive_msg_bytes P bytes ms ≡ some (true, ms')
  unfolding receive_msg_bytes receive_loop next_iteration
  receive_once [] ms ms' h e = ground arith
  receive_once (b ∷ bs) ms ms' h e =
      ap (next_iteration P (receive_loop P (length bs)) (b ∷ bs)) e
      ∙ ap (λ rest. receive_loop P (length bs) rest ms') (drop-length bs)

  absorb-current-read :
      (bytes : List ℕ) (ms ms' : List (Message P.Header)) (m m' : Message P.Header) (n : ℕ)
      → current P ms ≡ (m, ms')
      → read P bytes m ≡ (some n, m')
      → absorb P bytes ms ≡ (some n, m' ∷ ms')
  unfolding absorb
  absorb-current-read bytes ms ms' m m' n c r =
      ap (λ c. ((read P bytes c.0).0, (read P bytes c.0).1 ∷ c.1)) c ∙ ap (λ r. (r.0, r.1 ∷ ms')) r

  current-headed :
      (f : Frame × P.Header) (ms : List (Message P.Header))
      → IsFrame P f.0 f.1
      → 0 < length f.0.payload
      → current P (headed P f ∷ ms) ≡ (headed P f, ms)
  unfolding IsFrame headed current
  current-headed f ms (l, p, s, b) h =
      ground (arith, P.complete_means (headed P f), P.fresh_data_pos, s)

  current-received :
      (f : Frame × P.Header) (ms : List (Message P.Header))
      → IsFrame P f.0 f.1
      → current P (received P f ∷ ms) ≡ (P.fresh, received P f ∷ ms)
  unfolding IsFrame received current
  current-received f ms (l, p, s, b) = ground (arith, P.complete_means (received P f), s)

  receive-head :
      (f : Frame × P.Header) (ms : List (Message P.Header))
      → IsFrame P f.0 f.1
      → current P ms ≡ (P.fresh, ms)
      → receive_msg_bytes P f.0.head ms ≡ some (true, headed P f ∷ ms)
  unfolding IsFrame
  receive-head f ms i c = receive_once f.0.head ms (headed P f ∷ ms) (omega (arith, i.0)) (
      absorb-current-read f.0.head ms ms P.fresh (headed P f) _ c (read-head P f i)
      ∙ ap (λ n. (some n, headed P f ∷ ms)) (sym i.0))

  receive-payload :
      (f : Frame × P.Header) (ms : List (Message P.Header))
      → IsFrame P f.0 f.1
      → receive_msg_bytes P f.0.payload (headed P f ∷ ms) ≡ some (true, received P f ∷ ms)
  unfolding receive_msg_bytes receive_loop
  receive-payload f ms i = elim (empty_or f.0.payload) [
    | inl e ↦
        ap (λ bytes. receive_msg_bytes P bytes (headed P f ∷ ms)) e
        ∙ ap (λ m. some (true, m ∷ ms)) (headed-received P f i (ap length e))
    | inr h ↦ receive_once f.0.payload (headed P f ∷ ms) (received P f ∷ ms) h (
        absorb-current-read f.0.payload (headed P f ∷ ms) ms (headed P f) (received P f) _
          (current-headed f ms i h) (read-payload P f i))
  ]
    where
      empty_or : (xs : List ℕ) → (xs ≡ []) ⊎ (0 < length xs)
      empty_or [] = inl refl
      empty_or (x ∷ xs) = inr (omega arith)

  IsReady-current : (ms : List (Message P.Header)) → IsReady P ms → current P ms ≡ (P.fresh, ms)
  unfolding IsReady current
  IsReady-current [] r = refl
  IsReady-current (m ∷ ms) r = rw r

  IsReady-BackInBounds : (ms : List (Message P.Header)) → IsReady P ms → BackInBounds P ms
  unfolding IsReady BackInBounds InBounds
  IsReady-BackInBounds [] r = tt
  IsReady-BackInBounds (m ∷ ms) r =
      ((λ e. ground (arith, P.complete_means m)), (λ e. ground (arith, P.complete_means m)))

  received-IsReady :
      (f : Frame × P.Header) (ms : List (Message P.Header))
      → IsFrame P f.0 f.1
      → IsReady P (received P f ∷ ms)
  unfolding IsFrame received IsReady
  received-IsReady f ms (l, p, s, b) = ground (arith, P.complete_means (received P f), s)

  -- The pieces of whole messages, taken one after the other.
  receive-bytes_of :
      (fs : List (Frame × P.Header)) (ms : List (Message P.Header))
      → AreFrames P fs
      → IsReady P ms
      → receive_pieces P (bytes_of P fs) ms ≡ some (true, enqueue P fs ms)
  unfolding receive_pieces next_piece bytes_of enqueue AreFrames
  receive-bytes_of [] ms i r = refl
  receive-bytes_of (f ∷ fs) ms (i, is) r =
      ap (next_piece P (receive_pieces P (f.0.payload ∷ bytes_of P fs)))
        (receive-head f ms i (IsReady-current ms r))
      ∙ ap (next_piece P (receive_pieces P (bytes_of P fs))) (receive-payload f ms i)
      ∙ receive-bytes_of fs (received P f ∷ ms) is (received-IsReady f ms i)

  -- The bytes of messages whose headers can be read, state the length of the data and keep to the
  -- limit, in any pieces, to a queue without an incomplete message: the connection is kept, and the
  -- queue has the messages behind what was there, in order, complete and with their data.
  pub receive_pieces-frames :
      (fs : List (Frame × P.Header)) (pieces : List (List ℕ)) (ms : List (Message P.Header))
      → AreFrames P fs
      → IsReady P ms
      → concat pieces ≡ concat (bytes_of P fs)
      → receive_pieces P pieces ms ≡ some (true, enqueue P fs ms)
  receive_pieces-frames fs pieces ms i r e =
      (receive_pieces-concat P pieces ms (IsReady-BackInBounds ms r)).1
      ∙ ap (λ bytes. receive_msg_bytes P bytes ms) e
      ∙ sym (receive_pieces-concat P (bytes_of P fs) ms (IsReady-BackInBounds ms r)).1
      ∙ receive-bytes_of fs ms i r
