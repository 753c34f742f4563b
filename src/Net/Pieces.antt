-- ===== src/Net/Pieces.antt =====
-- net.cpp: ReceiveMsgBytes on the pieces that the network delivers.
use mathlib.Core.Path.{subst}
use mathlib.Core.Bool.{Bool, false, true}
use tri_tip.Prelude.{
  ap, arith, if◌then◌else◌, inl, inr, length, List, none, Option, Option-cases, refl, some, sym, ℕ,
  ◌++◌, ◌≡◌, ◌∙◌, ◌∷◌, [],
}
use tri_tip.Net.{Message, Protocol, absorb, receive_msg_bytes}
use tri_tip.Net.Stream.{BackInBounds, feed, absorb-Handled, receive_loop-feed}

unfoldable pub concat : List (List ℕ) → List ℕ
concat [] = []
concat (bytes ∷ pieces) = bytes ++ concat pieces

module _ (P : Protocol) where
  -- The socket thread goes on with a connection that ReceiveMsgBytes keeps.
  unfoldable pub next_piece :
      (List (Message P.Header) → Option (Bool × List (Message P.Header)))
      → Option (Bool × List (Message P.Header))
      → Option (Bool × List (Message P.Header))
  next_piece continue none = none
  next_piece continue (some r) = if r.0 then continue r.1 else some r

  -- The pieces that the socket thread reads, up to the first that ReceiveMsgBytes refuses.
  unfoldable pub receive_pieces :
      List (List ℕ) → List (Message P.Header) → Option (Bool × List (Message P.Header))
  unfolding receive_msg_bytes next_piece
  receive_pieces [] ms = some (true, ms)
  receive_pieces (bytes ∷ pieces) ms =
      next_piece (receive_pieces pieces) (receive_msg_bytes P bytes ms)

  feed-some :
      (b : ℕ) (bs : List ℕ) (ms : List (Message P.Header)) {n : ℕ}
      → (absorb P (b ∷ []) ms).0 ≡ some n
      → feed P (b ∷ bs) ms ≡ feed P bs (absorb P (b ∷ []) ms).1
  unfolding feed
  feed-some b bs ms e = rw (e, feed) refl

  feed-none :
      (b : ℕ) (bs : List ℕ) (ms : List (Message P.Header))
      → (absorb P (b ∷ []) ms).0 ≡ none
      → feed P (b ∷ bs) ms ≡ (false, (absorb P (b ∷ []) ms).1)
  unfolding feed
  feed-none b bs ms e = rw (e, feed) refl

  -- Bytes fed to the result of a feeding, if that kept the connection.
  unfoldable feed_on : List ℕ → Bool × List (Message P.Header) → Bool × List (Message P.Header)
  unfolding feed
  feed_on bs r = if r.0 then feed P bs r.1 else r

  feed-append :
      (cs bs : List ℕ) (ms : List (Message P.Header))
      → feed P (cs ++ bs) ms ≡ feed_on bs (feed P cs ms)
  unfolding feed_on
  feed-append [] bs ms = refl
  feed-append (c ∷ cs) bs ms = elim (Option-cases (absorb P (c ∷ []) ms).0) [
    | inl e ↦ feed-none c (cs ++ bs) ms e ∙ ap (feed_on bs) (sym (feed-none c cs ms e))
    | inr (n, e) ↦
        feed-some c (cs ++ bs) ms e
        ∙ feed-append cs bs (absorb P (c ∷ []) ms).1
        ∙ ap (feed_on bs) (sym (feed-some c cs ms e))
  ]

  feed-BackInBounds :
      (bs : List ℕ) (ms : List (Message P.Header))
      → BackInBounds P ms
      → (feed P bs ms).0 ≡ true
      → BackInBounds P (feed P bs ms).1
  unfolding feed
  feed-BackInBounds [] ms i e = i
  feed-BackInBounds (b ∷ bs) ms i e = elim (absorb-Handled P b ms i) [
    | inl n ↦ ground (arith, feed-none b bs ms n)
    | inr (n, k) ↦
        subst (λ r. BackInBounds P r.1) (sym (feed-some b bs ms n))
          (feed-BackInBounds bs (absorb P (b ∷ []) ms).1 k
            (ap (λ r. r.0) (sym (feed-some b bs ms n)) ∙ e))
  ]

  receive-feed :
      (bytes : List ℕ) (ms : List (Message P.Header))
      → BackInBounds P ms
      → receive_msg_bytes P bytes ms ≡ some (feed P bytes ms)
  unfolding receive_msg_bytes
  receive-feed bytes ms i = receive_loop-feed P (length bytes) bytes ms (omega arith) i

  feed_on-pieces :
      (pieces : List (List ℕ))
      → ((ms : List (Message P.Header))
          → BackInBounds P ms
          → receive_pieces pieces ms ≡ some (feed P (concat pieces) ms))
      → (r : Bool × List (Message P.Header)) → (r.0 ≡ true → BackInBounds P r.1)
      → (if r.0 then receive_pieces pieces r.1 else some r) ≡ some (feed_on (concat pieces) r)
  unfolding feed_on
  feed_on-pieces pieces ih (true, ms) k = ih ms (k refl)
  feed_on-pieces pieces ih (false, ms) k = refl

  pieces-feed :
      (pieces : List (List ℕ)) (ms : List (Message P.Header))
      → BackInBounds P ms
      → receive_pieces pieces ms ≡ some (feed P (concat pieces) ms)
  unfolding receive_pieces concat feed next_piece
  pieces-feed [] ms i = refl
  pieces-feed (bytes ∷ pieces) ms i =
      ap (next_piece (receive_pieces pieces)) (receive-feed bytes ms i)
      ∙ feed_on-pieces pieces (pieces-feed pieces) (feed P bytes ms) (feed-BackInBounds bytes ms i)
      ∙ ap some (sym (feed-append bytes (concat pieces) ms))

  -- Bytes that come in any pieces, to a queue whose last message is within its buffers, leave the queue
  -- and the verdict on the connection that they leave in one piece; the loop of ReceiveMsgBytes ends on
  -- each piece.
  pub receive_pieces-concat :
      (pieces : List (List ℕ)) (ms : List (Message P.Header))
      → BackInBounds P ms
      → ((r : Bool × List (Message P.Header)) × (receive_msg_bytes P (concat pieces) ms ≡ some r))
        × (receive_pieces pieces ms ≡ receive_msg_bytes P (concat pieces) ms)
  receive_pieces-concat pieces ms i = (
    (feed P (concat pieces) ms, receive-feed (concat pieces) ms i),
    pieces-feed pieces ms i ∙ sym (receive-feed (concat pieces) ms i),
  )
