-- ===== src/Net.antt =====
-- net.cpp: CNode::ReceiveMsgBytes with CNetMessage::readHeader and readData, which cut the bytes that
-- a socket delivers into messages. net.h and serialize.h are not in the repository: what these
-- functions use of them is the record Protocol.
pub mod Bytes
pub mod Stream
pub mod Pieces
pub mod Buffers
pub mod Frames
pub mod Send
use mathlib.Core.Bool.{◌&&◌, ◌||◌, Bool, false, not, true}
use tri_tip.Prelude.{
  ap, arith, Bool-cases, drop, get_or, if◌then◌else◌, inl, inr, leb, length, length-append, List,
  lt→ltb, ltb, ltb→lt, map, none, Option, Option-cases, refl, set, length-set, some, suc, sym, take,
  zero, ℕ, ◌%◌, ◌*◌, ◌++◌, ◌+◌, ◌-◌, ◌/◌, ◌<◌, ◌==◌, ◌≡◌, ◌^◌, ◌∙◌, ◌∷◌, ◌≢◌, ◌≤◌, ◌⊎◌, [],
  replicate,
}
use Prim.Native.Nat.{min}

-- A CNetMessage. The header is 24 bytes, of which `hdr_pos` have come into `hdr_buf`; of the data
-- `data_pos` bytes have come into `recv`.
pub record Message (Header : Type 0) : Type 0 where
  pub in_data : Bool
  pub hdr_buf : List ℕ
  pub hdr_pos : ℕ
  pub hdr : Header
  pub recv : List ℕ
  pub data_pos : ℕ

-- The header's format (`none` for an exception), MAX_SIZE, and the constructor and the method
-- `complete` of CNetMessage, with what ReceiveMsgBytes relies on.
pub record Protocol : Type 1 where
  pub Header : Type 0
  pub message_size : Header → ℕ
  pub parse : List ℕ → Option Header
  pub max_size : ℕ
  pub fresh : Message Header
  pub complete : Message Header → Bool
  pub fresh_in_data : fresh.in_data ≡ false
  pub fresh_hdr_pos : fresh.hdr_pos ≡ 0
  pub fresh_hdr_buf : length fresh.hdr_buf ≡ 24
  pub fresh_data_pos : fresh.data_pos ≡ 0
  pub complete_means :
      (m : Message Header) → complete m ≡ (m.in_data && message_size m.hdr == m.data_pos)

-- `memcpy` to a position of a buffer
unfoldable pub copy_to : List ℕ → ℕ → List ℕ → List ℕ
copy_to buf pos [] = buf
copy_to buf pos (b ∷ bs) = copy_to (set buf pos b) (pos + 1) bs

unfoldable pub resize : ℕ → List ℕ → List ℕ
resize n bytes = take n (bytes ++ replicate n 0)

module _ (P : Protocol) where
  -- What follows the copy: a header that has come is read, and its size is checked. The number of
  -- bytes handled is `none` for -1.
  unfoldable pub end_header : ℕ → Message P.Header → Option ℕ × Message P.Header
  unfolding resize
  end_header n m = if ltb m.hdr_pos 24 then (some n, m) else elim (P.parse m.hdr_buf) [
    | none ↦ (none, m)
    | some h ↦
        if ltb P.max_size (P.message_size h)
        then (none, record m { hdr = h })
        else (some n, record m { hdr = h; in_data = true; recv = resize (P.message_size h) m.recv })
  ]

  unfoldable pub read_header : List ℕ → Message P.Header → Option ℕ × Message P.Header
  unfolding end_header copy_to
  read_header bytes m =
      let n = min (24 - m.hdr_pos) (length bytes) in
      end_header n
        (record m { hdr_buf = copy_to m.hdr_buf m.hdr_pos (take n bytes); hdr_pos = m.hdr_pos + n })

  unfoldable pub read_data : List ℕ → Message P.Header → Option ℕ × Message P.Header
  unfolding copy_to
  read_data bytes m =
      let n = min (P.message_size m.hdr - m.data_pos) (length bytes) in
      (
        some n,
        record m { recv = copy_to m.recv m.data_pos (take n bytes); data_pos = m.data_pos + n },
      )

  unfoldable pub read : List ℕ → Message P.Header → Option ℕ × Message P.Header
  unfolding read_header read_data
  read bytes m = if m.in_data then read_data bytes m else read_header bytes m

  -- The incomplete message at the back of the queue, or a new one, and the messages before it. A
  -- queue has its back first.
  unfoldable pub current : List (Message P.Header) → Message P.Header × List (Message P.Header)
  current [] = (P.fresh, [])
  current (m ∷ ms) = if P.complete m then (P.fresh, m ∷ ms) else (m, ms)

  unfoldable pub absorb : List ℕ → List (Message P.Header) → Option ℕ × List (Message P.Header)
  unfolding current read
  absorb bytes ms = let r = read bytes (current ms).0 in (r.0, r.1 ∷ (current ms).1)

  -- The end of an iteration: false for an error, or the bytes handled are left behind.
  unfoldable pub next_iteration :
      (List ℕ → List (Message P.Header) → Option (Bool × List (Message P.Header)))
      → List ℕ
      → Option ℕ × List (Message P.Header)
      → Option (Bool × List (Message P.Header))
  next_iteration loop bytes r = elim r.0 [
    | none ↦ some (false, r.1)
    | some n ↦ loop (drop n bytes) r.1
  ]

  -- The loop of ReceiveMsgBytes, on fuel; `none` if that runs out. The Boolean is the result of the
  -- method, false when the connection is to be closed.
  unfoldable pub receive_loop :
      ℕ → List ℕ → List (Message P.Header) → Option (Bool × List (Message P.Header))
  unfolding absorb next_iteration
  receive_loop fuel [] ms = some (true, ms)
  receive_loop zero (b ∷ bs) ms = none
  receive_loop (suc fuel) (b ∷ bs) ms =
      next_iteration (receive_loop fuel) (b ∷ bs) (absorb (b ∷ bs) ms)

  -- An iteration handles a byte at least, so the bytes are fuel enough.
  unfoldable pub receive_msg_bytes :
      List ℕ → List (Message P.Header) → Option (Bool × List (Message P.Header))
  unfolding receive_loop
  receive_msg_bytes bytes ms = receive_loop (length bytes) bytes ms
