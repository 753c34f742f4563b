-- ===== src/Messages/Handled.antt =====
-- dust_coin/bitcoin_messages_handlers.cpp: which messages ProcessMessages handles.
use tri_tip.Messages.{answer_get_data}
use mathlib.Core.Path.{subst}
use mathlib.Core.Bool.{◌&&◌, ◌||◌, Bool, false, not, true}
use tri_tip.Prelude.{ap, arith, if◌then◌else◌, inl, inr, List, refl, ◌++◌, ◌≡◌, ◌∷◌, ◌⊎◌, []}
use tri_tip.Prelude.Equality.{bytes_eq}
use tri_tip.Net.{Message}
use tri_tip.Messages.{
  process_header, Header, Environment, Processed, has_checksum, process_loop, process_messages,
  is_valid, get_command,
}

module _ (E : Environment) where
  unfoldable pub has_start : Message Header → Bool
  has_start m = bytes_eq m.hdr.message_start E.start

  -- What a message does to the state: ProcessMessage sees it if header and checksum are right.
  unfoldable pub handle : Message Header → E.World → E.World
  handle m w =
      if is_valid E.start E.max_size m.hdr && has_checksum E m
      then E.process_message (get_command m.hdr) m.recv w
      else w

  unfoldable pub handle_all : List (Message Header) → E.World → E.World
  unfolding handle
  handle_all [] w = w
  handle_all (m ∷ ms) w = handle_all ms (handle m w)

  -- Each message is complete and was taken while the node was connected and could answer, and each
  -- has the right start.
  unfoldable pub Taken : List (Message Header) → E.World → Type 0
  unfolding handle has_start
  Taken [] w = Unit {0}
  Taken (m ∷ ms) w =
      (E.complete m ≡ true)
      × (has_start m ≡ true)
      × (E.disconnect w ≡ false)
      × (E.send_full w ≡ false)
      × Taken ms (handle m w)

  -- Why the loop ends before the messages `ms`.
  unfoldable pub Waits : List (Message Header) → E.World → Type 0
  Waits [] w = Unit {0}
  Waits (m ∷ ms) w = ((E.disconnect w || E.send_full w) ≡ true) ⊎ (E.complete m ≡ false)

  -- The loop took `taken`, in order, and then either waits, or dropped a complete message with a
  -- wrong start and gives the connection up.
  pub data Ends (queue : List (Message Header)) (w : E.World) (r : Processed E.World) : Type 0 where
    kept :
        (taken : List (Message Header))
        → (queue ≡ taken ++ r.rest)
        → Taken taken w
        → (r.world ≡ handle_all taken w)
        → (r.ok ≡ true)
        → Waits r.rest r.world
        → Ends queue w r
    given_up :
        (taken : List (Message Header)) (m : Message Header)
        → (queue ≡ taken ++ m ∷ r.rest)
        → Taken taken w
        → (r.world ≡ handle_all taken w)
        → (r.ok ≡ false)
        → (E.complete m ≡ true)
        → (has_start m ≡ false)
        → Ends queue w r

  process_header-handle : (m : Message Header) (w : E.World) → process_header E m w ≡ handle m w
  unfolding process_header handle
  process_header-handle m w = ground arith

  Ends-cons :
      (m : Message Header) (ms : List (Message Header)) (w : E.World) (r : Processed E.World)
      → E.complete m ≡ true
      → has_start m ≡ true
      → E.disconnect w ≡ false
      → E.send_full w ≡ false
      → Ends ms (handle m w) r
      → Ends (m ∷ ms) w r
  unfolding Taken handle_all
  Ends-cons m ms w r c h d f (kept taken e t u o x) =
      kept (m ∷ taken) (ap (λ ns. m ∷ ns) e) (c, h, d, f, t) u o x
  Ends-cons m ms w r c h d f (given_up taken n e t u o x y) =
      given_up (m ∷ taken) n (ap (λ ns. m ∷ ns) e) (c, h, d, f, t) u o x y

  -- The tests of the loop, by their results; `next` is what the loop does after the message.
  tests-Ends :
      (m : Message Header) (ms : List (Message Header)) (w : E.World) (next : Processed E.World)
      (d c h : Bool)
      → (E.disconnect w || E.send_full w) ≡ d
      → E.complete m ≡ c
      → has_start m ≡ h
      → Ends ms (handle m w) next
      → Ends (m ∷ ms) w (
          if d
          then record { ok = true; rest = m ∷ ms; world = w }
          else if not c
          then record { ok = true; rest = m ∷ ms; world = w }
          else if not h
          then record { ok = false; rest = ms; world = w }
          else next)
  unfolding Taken handle_all Waits
  tests-Ends m ms w next true c h e f g n = kept [] refl tt refl refl (inl e)
  tests-Ends m ms w next false false h e f g n = kept [] refl tt refl refl (inr f)
  tests-Ends m ms w next false true false e f g n = given_up [] m refl tt refl refl f g
  tests-Ends m ms w next false true true e f g n =
      Ends-cons m ms w next f g (ground (arith, e)) (ground (arith, e)) n

  process_loop-Ends :
      (queue : List (Message Header)) (w : E.World) → Ends queue w (process_loop E queue w)
  unfolding process_loop Taken handle_all Waits has_start
  process_loop-Ends [] w = kept [] refl tt refl refl tt
  process_loop-Ends (m ∷ ms) w =
      tests-Ends m ms w (process_loop E ms (process_header E m w)) _ _ _ refl refl refl (
        subst (λ v. Ends ms v (process_loop E ms (process_header E m w)))
          (process_header-handle m w) (process_loop-Ends ms (process_header E m w)))

  -- ProcessMessages, after it has answered what getdata asked for, takes a run of messages from the front of the queue, in order: each is complete,
  -- has the right start and is taken while the node is connected and its send buffer has room, and
  -- ProcessMessage sees exactly those whose header is valid and whose checksum agrees, once. It
  -- stops at the end of the queue, at a message that is incomplete, when the node is disconnected or the
  -- buffer is full, with the result true, or at a complete message with a wrong start, which it
  -- drops, with the result false. Unless the node is disconnected then, what it did not take stays in the queue.
  pub process_messages-Ends :
      (queue : List (Message Header)) (w : E.World)
      → (r : Processed E.World) × Ends queue (answer_get_data E w) r
        × ((process_messages E queue w).ok ≡ r.ok)
        × ((process_messages E queue w).world ≡ r.world)
        × (E.disconnect r.world ≡ false → (process_messages E queue w).rest ≡ r.rest)
  unfolding process_messages
  process_messages-Ends queue w = (
    process_loop E queue (answer_get_data E w),
    process_loop-Ends queue (answer_get_data E w),
    refl,
    refl,
    λ d. rw d refl,
  )
