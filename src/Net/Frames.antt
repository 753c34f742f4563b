-- ===== src/Net/Frames.antt =====
-- net.cpp: the messages that ReceiveMsgBytes cuts out of the stream, as they are sent and as they stand
-- in the queue.
pub mod Read
pub mod Receive
use mathlib.Core.Bool.{◌&&◌, ◌||◌, Bool, false, not, true}
use tri_tip.Prelude.{
  ap, arith, Bool-cases, drop, get_or, if◌then◌else◌, inl, inr, leb, length, length-append, List,
  lt→ltb, ltb, ltb→lt, map, none, Option, Option-cases, refl, set, length-set, some, suc, sym, take,
  zero, ℕ, ◌%◌, ◌*◌, ◌++◌, ◌+◌, ◌-◌, ◌/◌, ◌<◌, ◌==◌, ◌≡◌, ◌^◌, ◌∙◌, ◌∷◌, ◌≢◌, ◌≤◌, ◌⊎◌, [],
  replicate,
}
use tri_tip.Net.{Message, Protocol, resize}

-- A message as it is sent: 24 bytes of header and the data.
pub record Frame : Type 0 where
  pub head : List ℕ
  pub payload : List ℕ

module _ (P : Protocol) where
  -- The header can be read, states the length of the data, and that is within the limit.
  unfoldable pub IsFrame : Frame → P.Header → Type 0
  IsFrame f h =
      (length f.head ≡ 24)
      × (P.parse f.head ≡ some h)
      × (P.message_size h ≡ length f.payload)
      × (length f.payload ≤ P.max_size)

  unfoldable pub AreFrames : List (Frame × P.Header) → Type 0
  unfolding IsFrame
  AreFrames [] = Unit {0}
  AreFrames (f ∷ fs) = IsFrame f.0 f.1 × AreFrames fs

  -- The pieces of the frames, the first frame first.
  unfoldable pub bytes_of : List (Frame × P.Header) → List (List ℕ)
  bytes_of [] = []
  bytes_of (f ∷ fs) = f.0.head ∷ f.0.payload ∷ bytes_of fs

  unfoldable pub received : Frame × P.Header → Message P.Header
  received f = record {
    in_data = true;
    hdr_buf = f.0.head;
    hdr_pos = 24;
    hdr = f.1;
    recv = f.0.payload;
    data_pos = length f.0.payload;
  }

  -- The queue after the frames, back first.
  unfoldable pub enqueue :
      List (Frame × P.Header) → List (Message P.Header) → List (Message P.Header)
  unfolding received
  enqueue [] ms = ms
  enqueue (f ∷ fs) ms = enqueue fs (received f ∷ ms)

  -- The message between header and data.
  unfoldable pub headed : Frame × P.Header → Message P.Header
  unfolding resize
  headed f = record P.fresh {
    in_data = true;
    hdr_buf = f.0.head;
    hdr_pos = 24;
    hdr = f.1;
    recv = resize (P.message_size f.1) P.fresh.recv;
  }

  -- The next bytes begin a new message.
  unfoldable pub IsReady : List (Message P.Header) → Type 0
  IsReady [] = Unit {0}
  IsReady (m ∷ ms) = P.complete m ≡ true
