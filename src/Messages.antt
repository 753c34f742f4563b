-- ===== src/Messages.antt =====
-- protocol.cpp and dust_coin/bitcoin_messages_handlers.cpp: the header of a message, and
-- ProcessMessages, which takes the messages of a node from its queue. net.h is not in the repository:
-- `complete` of CNetMessage, the constants and what ProcessMessage does are parameters.
pub mod Commands
pub mod Handled
use mathlib.Core.Bool.{◌&&◌, ◌||◌, Bool, false, not, true}
use tri_tip.Prelude.{
  ap, arith, Bool-cases, drop, get_or, if◌then◌else◌, inl, inr, leb, length, length-append, List,
  lt→ltb, ltb, ltb→lt, map, none, Option, Option-cases, refl, set, length-set, some, suc, sym, take,
  zero, ℕ, ◌%◌, ◌*◌, ◌++◌, ◌+◌, ◌-◌, ◌/◌, ◌<◌, ◌==◌, ◌≡◌, ◌^◌, ◌∙◌, ◌∷◌, ◌≢◌, ◌≤◌, ◌⊎◌, [],
  replicate,
}
use tri_tip.Prelude.Equality.{bytes_eq}
use tri_tip.Net.{Message}

-- CMessageHeader
pub record Header : Type 0 where
  pub message_start : List ℕ
  pub command : List ℕ
  pub message_size : ℕ
  pub checksum : ℕ

unfoldable pub all_zeros : List ℕ → Bool
all_zeros [] = true
all_zeros (b ∷ bs) = if b == 0 then all_zeros bs else false

-- The loop of IsValid over the command: after its first zero there are zeros only.
unfoldable pub is_valid_command : List ℕ → Bool
unfolding all_zeros
is_valid_command [] = true
is_valid_command (b ∷ bs) =
    let rest = is_valid_command bs in
    if b == 0 then all_zeros bs else if ltb b 32 || ltb 126 b then false else rest

-- `strlen`, on bytes that have a zero or not
unfoldable pub string_length : List ℕ → ℕ
string_length [] = 0
string_length (b ∷ bs) = if b == 0 then 0 else suc (string_length bs)

-- `strncpy` to a field of `n` bytes
unfoldable pub copy_string : ℕ → List ℕ → List ℕ
copy_string zero bytes = []
copy_string (suc n) [] = 0 ∷ copy_string n []
copy_string (suc n) (b ∷ bs) = if b == 0 then replicate (suc n) 0 else b ∷ copy_string n bs

unfoldable pub get_command : Header → List ℕ
unfolding string_length
get_command h =
    if get_or h.command 11 0 == 0
    then take (string_length h.command) h.command
    else take 12 h.command

module _ (start : List ℕ) (max_size : ℕ) where
  -- CMessageHeader(pszCommand, nMessageSizeIn)
  unfoldable pub new_header : List ℕ → ℕ → Header
  unfolding copy_string
  new_header command size = record {
    message_start = start;
    command = copy_string 12 command;
    message_size = size;
    checksum = 0;
  }

  unfoldable pub is_valid : Header → Bool
  unfolding is_valid_command
  is_valid h =
      if not (bytes_eq h.message_start start)
      then false
      else if not (is_valid_command h.command)
      then false
      else not (ltb max_size h.message_size)

-- The first four bytes of a hash, as the number that `memcpy` makes of them.
unfoldable pub checksum_of : List ℕ → ℕ
checksum_of hash =
    get_or hash 0 0 + 2 ^ 8 * get_or hash 1 0 + 2 ^ 16 * get_or hash 2 0 + 2 ^ 24 * get_or hash 3 0

-- What ProcessMessages uses: `hash` is Hash, `world` is the state of the node and of what
-- ProcessMessage changes. The result of ProcessMessage and the exceptions, which are caught, are
-- printed only.
pub record Environment : Type 1 where
  pub World : Type 0
  pub start : List ℕ
  pub max_size : ℕ
  pub hash : List ℕ → List ℕ
  pub complete : Message Header → Bool
  pub disconnect : World → Bool
  pub send_full : World → Bool
  pub has_get_data : World → Bool
  pub process_get_data : World → World
  pub process_message : List ℕ → List ℕ → World → World

-- How the loop ends: `fOk`, the messages from `it` on, and the state.
pub record Processed (World : Type 0) : Type 0 where
  pub ok : Bool
  pub rest : List (Message Header)
  pub world : World

module _ (E : Environment) where
  unfoldable pub has_checksum : Message Header → Bool
  unfolding checksum_of
  has_checksum m = checksum_of (E.hash (take m.hdr.message_size m.recv)) == m.hdr.checksum

  -- What follows the test of the message start: with an error in the header or a wrong checksum the
  -- loop goes on at once.
  unfoldable pub process_header : Message Header → E.World → E.World
  unfolding has_checksum is_valid get_command
  process_header m w =
      if not (is_valid E.start E.max_size m.hdr)
      then w
      else if not (has_checksum m)
      then w
      else E.process_message (get_command m.hdr) m.recv w

  unfoldable pub process_loop : List (Message Header) → E.World → Processed E.World
  unfolding process_header
  process_loop [] w = record { ok = true; rest = []; world = w }
  process_loop (m ∷ ms) w =
      let next = process_loop ms (process_header m w) in
      if E.disconnect w || E.send_full w
      then record { ok = true; rest = m ∷ ms; world = w }
      else if not (E.complete m)
      then record { ok = true; rest = m ∷ ms; world = w }
      else if not (bytes_eq m.hdr.message_start E.start)
      then record { ok = false; rest = ms; world = w }
      else next

  unfoldable pub answer_get_data : E.World → E.World
  answer_get_data w = if E.has_get_data w then E.process_get_data w else w

  -- The messages from `it` on stay in the queue, unless the connection was shut down, which wipes it.
  unfoldable pub process_messages : List (Message Header) → E.World → Processed E.World
  unfolding process_loop answer_get_data
  process_messages queue w =
      let r = process_loop queue (answer_get_data w) in
      record { ok = r.ok; rest = if E.disconnect r.world then queue else r.rest; world = r.world }
