-- ===== src/Net/Stream.antt =====
-- net.cpp: ReceiveMsgBytes, one byte at a time and in any pieces.
use mathlib.Core.Path.{subst}
use mathlib.Core.Bool.{Bool, false, true}
use tri_tip.Prelude.{
  ap, arith, Bool-cases, inl, inr, length, List, ltb, ltb→lt, none, Option, Option-cases, refl,
  some, suc, sym, zero, ℕ, ◌<◌, ◌≡◌, ◌∙◌, ◌∷◌, ◌≤◌, ◌⊎◌, [],
}
use tri_tip.Net.{Message, Protocol, end_header, read, current, absorb, next_iteration, receive_loop}
use tri_tip.Net.Bytes.{
  missing, one_more, take_byte, header-at, data-at, read-data, read-header, missing-data,
  missing-header, read-last, read-single, read-more, missing-take_byte,
}

module _ (P : Protocol) where
  unfoldable pub InBounds : Message P.Header → Type 0
  InBounds m =
      (m.in_data ≡ true → m.data_pos ≤ P.message_size m.hdr)
      × (m.in_data ≡ false → (m.hdr_pos < 24) × (m.data_pos ≡ 0))

  -- The positions of the message at the back of the queue lie within its buffers.
  unfoldable pub BackInBounds : List (Message P.Header) → Type 0
  unfolding InBounds
  BackInBounds [] = Unit {0}
  BackInBounds (m ∷ ms) = InBounds m

  -- The bytes one at a time.
  unfoldable pub feed : List ℕ → List (Message P.Header) → Bool × List (Message P.Header)
  unfolding absorb
  feed [] ms = (true, ms)
  feed (b ∷ bs) ms =
      let r = absorb P (b ∷ []) ms in elim r.0 [ none ↦ (false, r.1) | some n ↦ feed bs r.1 ]

  fresh-InBounds : InBounds P.fresh
  unfolding InBounds
  fresh-InBounds = (
    λ e. ground (arith, P.fresh_in_data),
    λ e. (omega (arith, P.fresh_hdr_pos), P.fresh_data_pos),
  )

  fresh-missing : 0 < missing P P.fresh
  unfolding missing
  fresh-missing = ground (arith, P.fresh_in_data, P.fresh_hdr_pos)

  InBounds-missing : (m : Message P.Header) → InBounds m → P.complete m ≡ false → 0 < missing P m
  unfolding InBounds missing
  InBounds-missing m (i, o) e = ground (arith, P.complete_means m)

  -- A message that waits for bytes is not complete.
  complete-missing : (m : Message P.Header) → 0 < missing P m → P.complete m ≡ false
  unfolding missing
  complete-missing m h = ground (arith, P.complete_means m)

  current-missing :
      (ms : List (Message P.Header))
      → BackInBounds ms
      → InBounds (current P ms).0 × (0 < missing P (current P ms).0)
  unfolding current BackInBounds
  current-missing [] i = (fresh-InBounds, fresh-missing)
  current-missing (m ∷ ms) i = elim (Bool-cases (P.complete m)) [
    | inl e ↦ rw e (fresh-InBounds, fresh-missing)
    | inr e ↦ rw e (i, InBounds-missing m i e)
  ]

  -- What an iteration on one byte comes to: the connection is given up, or it took the byte.
  unfoldable pub Handled : Option ℕ × Message P.Header → Type 0
  unfolding InBounds
  Handled r = (r.0 ≡ none) ⊎ ((r.0 ≡ some 1) × InBounds r.1)

  end_header-Handled :
      (m : Message P.Header)
      → m.in_data ≡ false
      → m.hdr_pos ≤ 24
      → m.data_pos ≡ 0
      → Handled (end_header P 1 m)
  unfolding Handled end_header
  end_header-Handled m e p d = elim (Bool-cases (ltb m.hdr_pos 24)) [
    | inl k ↦ rw k (inr (refl, (λ t. ground arith, λ _. (omega (arith, ltb→lt m.hdr_pos 24 k), d))))
    | inr k ↦ elim (Option-cases (P.parse m.hdr_buf)) [
      | inl n ↦ rw k (rw n (inl refl))
      | inr (h, n) ↦ elim (Bool-cases (ltb P.max_size (P.message_size h))) [
        | inl l ↦ rw k (rw n (rw l (inl refl)))
        | inr l ↦ rw k (rw n (rw l (inr (refl, (λ _. omega arith, λ t. ground arith)))))
      ]
    ]
  ]

  read-Handled :
      (b : ℕ) (m : Message P.Header) → InBounds m → 0 < missing P m → Handled (read P (b ∷ []) m)
  unfolding Handled InBounds
  read-Handled b m (i, o) h = elim (Bool-cases m.in_data) [
    | inl e ↦
        subst Handled
          (sym
            (read-data P (b ∷ []) m e ∙ data-at P 1 (b ∷ []) m (omega (arith, missing-data P m e))))
          (inr (refl, (λ _. omega (arith, missing-data P m e), λ t. ground arith)))
    | inr e ↦
        subst Handled
          (sym (
            read-header P (b ∷ []) m e
            ∙ header-at P 1 (b ∷ []) m (omega (arith, missing-header P m e))))
          (end_header-Handled _ e (omega (arith, missing-header P m e)) (o e).1)
  ]

  pub absorb-Handled :
      (b : ℕ) (ms : List (Message P.Header))
      → BackInBounds ms
      → ((absorb P (b ∷ []) ms).0 ≡ none)
        ⊎ (((absorb P (b ∷ []) ms).0 ≡ some 1) × BackInBounds (absorb P (b ∷ []) ms).1)
  unfolding absorb BackInBounds Handled
  absorb-Handled b ms i = let c = current-missing ms i in read-Handled b (current P ms).0 c.0 c.1

  -- After a byte that is not the last one of its message, the message is the one at the back.
  current-take_byte :
      (b : ℕ) (m : Message P.Header) (ms : List (Message P.Header))
      → 1 < missing P m
      → current P (take_byte P b m ∷ ms) ≡ (take_byte P b m, ms)
  unfolding current
  current-take_byte b m ms h =
      rw (complete-missing (take_byte P b m) (omega (arith, missing-take_byte P b m)))

  pub absorb-single :
      (b : ℕ) (ms : List (Message P.Header))
      → 1 < missing P (current P ms).0
      → absorb P (b ∷ []) ms ≡ (some 1, take_byte P b (current P ms).0 ∷ (current P ms).1)
  unfolding absorb
  absorb-single b ms h =
      ap (λ r. (r.0, r.1 ∷ (current P ms).1)) (read-single P b (current P ms).0 h)

  -- The current message of a queue, after its reading went on with more bytes.
  absorb-more :
      (b c : ℕ) (bs : List ℕ) (ms : List (Message P.Header))
      → 1 < missing P (current P ms).0
      → absorb P (b ∷ c ∷ bs) ms ≡ (
          let r = one_more P (read P (c ∷ bs) (take_byte P b (current P ms).0)) in
          (r.0, r.1 ∷ (current P ms).1))
  unfolding absorb
  absorb-more b c bs ms h =
      ap (λ r. (r.0, r.1 ∷ (current P ms).1)) (read-more P b c bs (current P ms).0 h)

  absorb-last :
      (b : ℕ) (bs : List ℕ) (ms : List (Message P.Header))
      → missing P (current P ms).0 ≡ 1
      → absorb P (b ∷ bs) ms ≡ absorb P (b ∷ []) ms
  unfolding absorb
  absorb-last b bs ms h =
      ap (λ r. (r.0, r.1 ∷ (current P ms).1)) (read-last P b bs (current P ms).0 h)

  absorb-current :
      (b : ℕ) (bytes : List ℕ) (m : Message P.Header) (ms : List (Message P.Header))
      → 1 < missing P m
      → absorb P bytes (take_byte P b m ∷ ms)
        ≡ (let r = read P bytes (take_byte P b m) in (r.0, r.1 ∷ ms))
  unfolding absorb
  absorb-current b bytes m ms h =
      ap (λ c. ((read P bytes c.0).0, (read P bytes c.0).1 ∷ c.1)) (current-take_byte b m ms h)

  next_iteration-one_more :
      (loop : List ℕ → List (Message P.Header) → Option (Bool × List (Message P.Header))) (b : ℕ)
      (bs : List ℕ) (r : Option ℕ × Message P.Header) (ms : List (Message P.Header))
      → next_iteration P loop (b ∷ bs) ((one_more P r).0, (one_more P r).1 ∷ ms)
        ≡ next_iteration P loop bs (r.0, r.1 ∷ ms)
  unfolding next_iteration one_more
  next_iteration-one_more loop b bs (none, m) ms = refl
  next_iteration-one_more loop b bs (some n, m) ms = refl

  loop_more :
      (fuel b c : ℕ) (bs : List ℕ) (ms : List (Message P.Header))
      → 1 < missing P (current P ms).0
      → receive_loop P (suc fuel) (b ∷ c ∷ bs) ms
        ≡ receive_loop P (suc fuel) (c ∷ bs) (take_byte P b (current P ms).0 ∷ (current P ms).1)
  unfolding receive_loop
  loop_more fuel b c bs ms h =
      ap (next_iteration P (receive_loop P fuel) (b ∷ c ∷ bs)) (absorb-more b c bs ms h)
      ∙ next_iteration-one_more (receive_loop P fuel) b (c ∷ bs)
          (read P (c ∷ bs) (take_byte P b (current P ms).0)) (current P ms).1
      ∙ ap (next_iteration P (receive_loop P fuel) (c ∷ bs))
          (sym (absorb-current b (c ∷ bs) (current P ms).0 (current P ms).1 h))

  next_iteration-feed :
      (fuel b : ℕ) (bs : List ℕ) (r : Option ℕ × List (Message P.Header))
      → (r.0 ≡ none) ⊎ ((r.0 ≡ some 1) × (receive_loop P fuel bs r.1 ≡ some (feed bs r.1)))
      → next_iteration P (receive_loop P fuel) (b ∷ bs) r
        ≡ some (elim r.0 [ none ↦ (false, r.1) | some n ↦ feed bs r.1 ])
  unfolding next_iteration
  next_iteration-feed fuel b bs r (inl e) = rw e
  next_iteration-feed fuel b bs r (inr (e, ih)) = rw e ih

  feed-more :
      (b : ℕ) (bs : List ℕ) (ms : List (Message P.Header))
      → 1 < missing P (current P ms).0
      → feed (b ∷ bs) ms ≡ feed bs (take_byte P b (current P ms).0 ∷ (current P ms).1)
  unfolding feed
  feed-more b bs ms h =
      ap (λ r. elim r.0 [ none ↦ (false, r.1) | some n ↦ feed bs r.1 ]) (absorb-single b ms h)

  take_byte-BackInBounds :
      (b : ℕ) (ms : List (Message P.Header))
      → BackInBounds ms
      → 1 < missing P (current P ms).0
      → BackInBounds (take_byte P b (current P ms).0 ∷ (current P ms).1)
  take_byte-BackInBounds b ms i h = elim (absorb-Handled b ms i) [
    | inl e ↦ ground (arith, absorb-single b ms h)
    | inr (e, k) ↦ subst (λ r. BackInBounds r.1) (absorb-single b ms h) k
  ]

  missing-cases :
      (ms : List (Message P.Header))
      → BackInBounds ms
      → (missing P (current P ms).0 ≡ 1) ⊎ (1 < missing P (current P ms).0)
  missing-cases ms i = omega (arith, (current-missing ms i).1)

  -- With as many iterations as bytes, the loop does what it does on the bytes one at a time.
  pub receive_loop-feed :
      (fuel : ℕ) (bs : List ℕ) (ms : List (Message P.Header))
      → length bs ≤ fuel
      → BackInBounds ms
      → receive_loop P fuel bs ms ≡ some (feed bs ms)
  unfolding receive_loop feed
  receive_loop-feed fuel [] ms f i = refl
  receive_loop-feed zero (b ∷ bs) ms f i = ground arith
  receive_loop-feed (suc fuel) (b ∷ []) ms f i =
      next_iteration-feed fuel b [] (absorb P (b ∷ []) ms)
        (elim (absorb-Handled b ms i) [ inl e ↦ inl e | inr (e, k) ↦ inr (e, refl) ])
  receive_loop-feed (suc fuel) (b ∷ c ∷ bs) ms f i = elim (missing-cases ms i) [
    | inl e ↦
        ap (next_iteration P (receive_loop P fuel) (b ∷ c ∷ bs)) (absorb-last b (c ∷ bs) ms e)
        ∙ next_iteration-feed fuel b (c ∷ bs) (absorb P (b ∷ []) ms) (elim (absorb-Handled b ms i) [
          | inl n ↦ inl n
          | inr (n, k) ↦ inr (n, receive_loop-feed fuel (c ∷ bs) _ (omega arith) k)
        ])
    | inr h ↦
        loop_more fuel b c bs ms h
        ∙ receive_loop-feed (suc fuel) (c ∷ bs) _ (omega arith) (take_byte-BackInBounds b ms i h)
        ∙ ap some (sym (feed-more b (c ∷ bs) ms h))
  ]
