-- ===== src/Net/Send/Stream.antt =====
-- net.cpp: SocketSendData and the stream of messages.
use tri_tip.Prelude.{length-drop}
use tri_tip.Prelude.{take-append-drop}
use mathlib.Core.List.{append_assoc}
use mathlib.Core.Path.{ap₂}
use tri_tip.Net.Send.{sent, failed}
use mathlib.Core.Bool.{false, true}
use tri_tip.Prelude.{
  ap, arith, Bool-cases, drop, inl, inr, length, List, lt→ltb, ltb, Option, refl, some, suc, sym,
  take, zero, ℕ, ◌++◌, ◌+◌, ◌<◌, ◌==◌, ◌≡◌, ◌^◌, ◌∙◌, ◌∷◌, ◌≤◌, [],
}
use tri_tip.Net.Send.{
  Answer, Peer, end_send, count_sent, message_sent, after_send, send_loop, socket_send_data,
}

unfoldable pub total_size : List (List ℕ) → ℕ
total_size [] = 0
total_size (msg ∷ rest) = length msg + total_size rest

unfoldable pub joined : List (List ℕ) → List ℕ
joined [] = []
joined (msg ∷ rest) = msg ++ joined rest

-- The bytes that have not been sent
unfoldable pub unsent : List (List ℕ) → ℕ → List ℕ
unfolding joined
unsent [] offset = []
unsent (msg ∷ rest) offset = drop offset msg ++ joined rest

unfoldable pub NoneEmpty : List (List ℕ) → Type 0
NoneEmpty [] = Unit {0}
NoneEmpty (msg ∷ rest) = (0 < length msg) × NoneEmpty rest

-- The offset lies in the first message.
unfoldable pub OffsetWithin : List (List ℕ) → ℕ → Type 0
OffsetWithin [] offset = offset ≡ 0
OffsetWithin (msg ∷ rest) offset = offset < length msg

-- No message is empty, the offset lies in the first, and nSendSize is the size of all.
unfoldable pub IsSound : List (List ℕ) → Peer → Type 0
unfolding total_size NoneEmpty OffsetWithin
IsSound queue p =
    (total_size queue < 2 ^ 64)
    × (p.send_size ≡ total_size queue)
    × NoneEmpty queue
    × OffsetWithin queue p.send_offset

-- What the loop comes to: it ends, no assertion fails, and the bytes on the wire go on with those that were not
-- sent before.
unfoldable pub Sends : List (List ℕ) → Peer → Option Peer → Type 0
unfolding IsSound unsent
Sends queue p o =
    (q : Peer) × (o ≡ some q)
    × IsSound q.send_msg q
    × (q.wire ++ unsent q.send_msg q.send_offset ≡ p.wire ++ unsent queue p.send_offset)

-- The first message is not sent to its end.
end_send-Sends :
    (msg : List ℕ) (rest : List (List ℕ)) (p q : Peer)
    → IsSound (msg ∷ rest) q
    → q.wire ++ unsent (msg ∷ rest) q.send_offset ≡ p.wire ++ unsent (msg ∷ rest) p.send_offset
    → Sends (msg ∷ rest) p (end_send (msg ∷ rest) q)
unfolding Sends end_send
end_send-Sends msg rest p q s e = (record q { send_msg = msg ∷ rest }, refl, s, e)

unsent-offset : (rest : List (List ℕ)) → unsent rest 0 ≡ joined rest
unfolding unsent joined
unsent-offset [] = refl
unsent-offset (msg ∷ rest) = refl

drop-nil : (n : ℕ) → drop {A = ℕ} n [] ≡ []
drop-nil zero = refl
drop-nil (suc n) = refl

drop-drop : (n m : ℕ) (xs : List ℕ) → drop n (drop m xs) ≡ drop (m + n) xs
drop-drop n zero xs = ap (λ k. drop k xs) {x = n} {y = 0 + n} (omega arith)
drop-drop n (suc m) [] =
    drop-nil n ∙ ap (λ k. drop k []) {x = suc (m + n)} {y = suc m + n} (omega arith)
drop-drop n (suc m) (x ∷ xs) =
    drop-drop n m xs ∙ ap (λ k. drop k (x ∷ xs)) {x = suc (m + n)} {y = suc m + n} (omega arith)

drop_all : (xs : List ℕ) (n : ℕ) → n ≡ length xs → drop n xs ≡ []
drop_all [] n e = drop-nil n
drop_all (x ∷ xs) zero e = ground (arith, e)
drop_all (x ∷ xs) (suc n) e = drop_all xs n (omega (arith, e))

count_sent-wire :
    (now n : ℕ) (msg : List ℕ) (rest : List (List ℕ)) (p : Peer)
    → (count_sent now n msg p).wire ++ unsent (msg ∷ rest) (count_sent now n msg p).send_offset
      ≡ p.wire ++ unsent (msg ∷ rest) p.send_offset
unfolding count_sent unsent
count_sent-wire now n msg rest p =
    append_assoc p.wire (take n left) (drop (p.send_offset + n) msg ++ joined rest)
    ∙ ap (λ bytes. p.wire ++ bytes)
        (ap (λ bytes. take n left ++ (bytes ++ joined rest)) (sym (drop-drop n p.send_offset msg))
          ∙ sym (append_assoc (take n left) (drop n left) (joined rest))
          ∙ ap (λ bytes. bytes ++ joined rest) (take-append-drop n left))
  where
    left : List ℕ
    left = drop p.send_offset msg

OffsetWithin-start : (queue : List (List ℕ)) → NoneEmpty queue → OffsetWithin queue 0
unfolding NoneEmpty OffsetWithin
OffsetWithin-start [] e = refl
OffsetWithin-start (msg ∷ rest) e = e.0

message_sent-Sound :
    (now n : ℕ) (msg : List ℕ) (rest : List (List ℕ)) (p : Peer)
    → IsSound (msg ∷ rest) p
    → IsSound rest (message_sent msg (count_sent now n msg p))
unfolding IsSound message_sent count_sent
message_sent-Sound now n msg rest p (t, z, (e, es), o) =
    (omega arith, omega (arith, z), es, OffsetWithin-start rest es)

-- The wire after a message that was sent to its end
message_sent-wire :
    (now n : ℕ) (msg : List ℕ) (rest : List (List ℕ)) (p : Peer)
    → p.send_offset + n ≡ length msg
    → (message_sent msg (count_sent now n msg p)).wire ++ unsent rest 0
      ≡ p.wire ++ unsent (msg ∷ rest) p.send_offset
unfolding message_sent count_sent unsent
message_sent-wire now n msg rest p e =
    ap₂ (λ bytes more. (count_sent now n msg p).wire ++ (bytes ++ more))
      (sym (drop_all msg (p.send_offset + n) e)) (unsent-offset rest)
    ∙ count_sent-wire now n msg rest p

Sends-trans :
    (queue rest : List (List ℕ)) (p q : Peer) (o : Option Peer)
    → q.wire ++ unsent rest q.send_offset ≡ p.wire ++ unsent queue p.send_offset
    → Sends rest q o
    → Sends queue p o
unfolding Sends
Sends-trans queue rest p q o e (r, f, s, w) = (r, f, s, w ∙ e)

count_sent-Sound :
    (now n : ℕ) (msg : List ℕ) (rest : List (List ℕ)) (p : Peer)
    → n ≤ length (drop p.send_offset msg)
    → (p.send_offset + n == length msg) ≡ false
    → IsSound (msg ∷ rest) p
    → IsSound (msg ∷ rest) (count_sent now n msg p)
unfolding IsSound count_sent OffsetWithin
count_sent-Sound now n msg rest p h e (t, z, m, o) =
    (t, z, m, ground (arith, length-drop p.send_offset msg))

after_send-Sends :
    (now : ℕ) (continue : Peer → Option Peer) (msg : List ℕ) (rest : List (List ℕ)) (a : Answer)
    (p : Peer)
    → ((n : ℕ) → a ≡ sent n → n ≤ length (drop p.send_offset msg))
    → ((q : Peer) → IsSound rest q → Sends rest q (continue q))
    → IsSound (msg ∷ rest) p
    → Sends (msg ∷ rest) p (after_send now continue msg rest a p)
unfolding after_send IsSound
after_send-Sends now continue msg rest (sent n) p law ih s = elim (Bool-cases (ltb 0 n)) [
  | inr z ↦ rw z (end_send-Sends msg rest p p s refl)
  | inl z ↦ elim (Bool-cases (p.send_offset + n == length msg)) [
    | inl e ↦ rw z (
        rw e (
          Sends-trans (msg ∷ rest) rest p (message_sent msg (count_sent now n msg p)) _
            (message_sent-wire now n msg rest p (ground arith))
            (ih _ (message_sent-Sound now n msg rest p s))))
    | inr e ↦ rw z (
        rw e (
          end_send-Sends msg rest p (count_sent now n msg p)
            (count_sent-Sound now n msg rest p (law n refl) e s)
            (count_sent-wire now n msg rest p)))
  ]
]
after_send-Sends now continue msg rest (failed true) p law ih s = end_send-Sends msg rest p p s refl
after_send-Sends now continue msg rest (failed false) p law ih s =
    end_send-Sends msg rest p (record p { disconnect = true }) s refl

send_loop-Sends :
    (send : ℕ → List ℕ → Answer) (now calls : ℕ) (queue : List (List ℕ)) (p : Peer)
    → ((k : ℕ) (bytes : List ℕ) (n : ℕ) → send k bytes ≡ sent n → n ≤ length bytes)
    → IsSound queue p
    → Sends queue p (send_loop send now calls queue p)
unfolding send_loop end_send Sends IsSound OffsetWithin total_size
send_loop-Sends send now calls [] p law (t, z, m, o) =
    (record p { send_msg = [] }, ground (arith, o, z), (t, z, m, o), refl)
send_loop-Sends send now calls (msg ∷ rest) p law s = rw (lt→ltb p.send_offset (length msg) s.3) (
    after_send-Sends now (send_loop send now (calls + 1) rest) msg rest _ p
      (law calls (drop p.send_offset msg))
      (λ q t. send_loop-Sends send now (calls + 1) rest q law t) s)

-- For a `send` that takes no more than it is given: on a queue without empty messages, with
-- the offset in its first message and nSendSize the size of all, SocketSendData returns, none of its assertions
-- fails, and the queue is again such a queue. What the socket has taken, followed by what is left to send, is the same stream of bytes as
-- before: nothing is lost, repeated or sent out of order.
pub socket_send_data-Sends :
    (send : ℕ → List ℕ → Answer) (now : ℕ) (p : Peer)
    → ((k : ℕ) (bytes : List ℕ) (n : ℕ) → send k bytes ≡ sent n → n ≤ length bytes)
    → IsSound p.send_msg p
    → Sends p.send_msg p (socket_send_data send now p)
unfolding socket_send_data
socket_send_data-Sends send now p law s = send_loop-Sends send now 0 p.send_msg p law s
