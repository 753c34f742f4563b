-- ===== src/Net/Send.antt =====
-- net.cpp: SocketSendData, which writes the messages of a connection to its socket. `send` is a
-- parameter, and `wire` the bytes that it has taken.
pub mod Stream
use mathlib.Core.Bool.{◌&&◌, ◌||◌, Bool, false, not, true}
use tri_tip.Prelude.{
  ap, arith, Bool-cases, drop, get_or, if◌then◌else◌, inl, inr, leb, length, length-append, List,
  lt→ltb, ltb, ltb→lt, map, none, Option, Option-cases, refl, set, length-set, some, suc, sym, take,
  zero, ℕ, ◌%◌, ◌*◌, ◌++◌, ◌+◌, ◌-◌, ◌/◌, ◌<◌, ◌==◌, ◌≡◌, ◌^◌, ◌∙◌, ◌∷◌, ◌≢◌, ◌≤◌, ◌⊎◌, [],
  replicate,
}

-- What `send` returns: a number of bytes, or an error, which is one of those to wait for or not.
pub data Answer : Type 0 where
  sent : ℕ → Answer
  failed : Bool → Answer

-- The fields of CNode for sending; the counters have 64 bits.
pub record Peer : Type 0 where
  pub send_msg : List (List ℕ)
  pub send_offset : ℕ
  pub send_size : ℕ
  pub send_bytes : ℕ
  pub last_send : ℕ
  pub disconnect : Bool
  pub wire : List ℕ

-- The assertions at the end, of which `none` is a failure, and the removal of what was sent.
unfoldable pub end_send : List (List ℕ) → Peer → Option Peer
end_send [] p =
    if p.send_offset == 0 && p.send_size == 0 then some (record p { send_msg = [] }) else none
end_send (msg ∷ rest) p = some (record p { send_msg = msg ∷ rest })

unfoldable pub count_sent : ℕ → ℕ → List ℕ → Peer → Peer
count_sent now n msg p = record p {
  last_send = now;
  send_bytes = (p.send_bytes + n) % 2 ^ 64;
  send_offset = p.send_offset + n;
  wire = p.wire ++ take n (drop p.send_offset msg);
}

unfoldable pub message_sent : List ℕ → Peer → Peer
message_sent msg p = record p {
  send_offset = 0;
  send_size = (p.send_size + 2 ^ 64 - length msg) % 2 ^ 64;
}

-- An iteration on `send`'s answer; `continue` is the loop on the messages that follow.
unfoldable pub after_send :
    ℕ → (Peer → Option Peer) → List ℕ → List (List ℕ) → Answer → Peer → Option Peer
unfolding end_send count_sent message_sent
after_send now continue msg rest (sent n) p =
    if ltb 0 n
    then (if p.send_offset + n == length msg
        then continue (message_sent msg (count_sent now n msg p))
        else end_send (msg ∷ rest) (count_sent now n msg p))
    else end_send (msg ∷ rest) p
after_send now continue msg rest (failed wait) p =
    end_send (msg ∷ rest) (if wait then p else record p { disconnect = true })

-- `send` is given the number of calls before it and the bytes; `now` is GetTime.
module _ (send : ℕ → List ℕ → Answer) (now : ℕ) where
  -- The loop over the messages, from the first. Its assertion, too, is `none` if it fails.
  unfoldable pub send_loop : ℕ → List (List ℕ) → Peer → Option Peer
  unfolding after_send
  send_loop calls [] p = end_send [] p
  send_loop calls (msg ∷ rest) p =
      if ltb p.send_offset (length msg)
      then after_send now (send_loop (calls + 1) rest) msg rest
          (send calls (drop p.send_offset msg)) p
      else none

  unfoldable pub socket_send_data : Peer → Option Peer
  unfolding send_loop
  socket_send_data p = send_loop 0 p.send_msg p
