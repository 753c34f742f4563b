-- ===== src/Node/Work.antt =====
-- bitcoin_messages_handlers.cpp, ComputeMinWork: its result in closed form.
use mathlib.Core.Bool.{◌&&◌, Bool, false, true}
use tri_tip.Prelude.{ap, arith, if◌then◌else◌, refl, suc, zero, ℕ, ◌*◌, ◌+◌, ◌/◌, ◌≡◌, ◌≤◌}
use tri_tip.Prelude.Int.{ℤ, pos, pos_part, ltb_ℤ, ◌-ℤ◌, ◌*ℤ◌}
use tri_tip.Chain.{Net}
use native.Mathlib.Nat.{mul_assoc, pow-suc, pow-succ'}
use tri_tip.Prelude.{◌⊎◌, inl, inr, Bool-cases, sym, ◌<◌, ◌-◌}
use Prim.Native.Nat.{min}
use tri_tip.Prelude.{ltb, ◌^◌, ◌∙◌}
use tri_tip.Validation.Compact.{set_compact, get_compact}
use tri_tip.Node.{min_work_loop, min_work, compute_min_work}

-- The rounds of `n` seconds: as many as begin in them
unfoldable pub rounds : ℕ → ℕ
rounds n = (n + 4838399) / 4838400

clamp : ℕ → ℤ → ℤ
clamp limit result = if ltb_ℤ (pos limit) result then pos limit else result

grown : (b k : ℕ) → b * 4 * 4 ^ k ≡ b * 4 ^ (k + 1)
grown b k = mul_assoc b 4 (4 ^ k) ∙ ap (λ p. b * p) (sym (pow-succ' 4 k) ∙ ap (λ e. 4 ^ e) (next k))
  where
    next : (k : ℕ) → suc k ≡ k + 1
    next k = omega arith

one_le : (b k : ℕ) → b ≤ b * 4 ^ k
one_le b zero = omega arith
one_le b (suc k) = omega (arith, one_le b k, grown b k, shift k)
  where
    shift : (k : ℕ) → b * 4 ^ (suc k) ≡ b * 4 ^ k * 4
    shift k = ap (λ p. b * p) (pow-suc 4 k) ∙ sym (mul_assoc b (4 ^ k) 4)

pos_part_later : (time : ℤ) → pos_part (time -ℤ pos 4838400) ≡ pos_part time - 4838400
unfolding ◌-ℤ◌
pos_part_later time = ground arith

four_times : (b : ℕ) → pos b *ℤ pos 4 ≡ pos (b * 4)
unfolding ◌*ℤ◌
four_times b = ground arith

-- The clamp of what is no less than the limit, and of what the loop leaves
clamp-min : (limit b : ℕ) → clamp limit (pos b) ≡ pos (min limit b)
unfolding clamp
clamp-min limit b = ground arith

rounds-later : (n : ℕ) → 0 < n → rounds n ≡ rounds (n - 4838400) + 1
unfolding rounds
rounds-later n h = omega (arith, h)

rounds-zero : (n : ℕ) → n ≡ 0 → rounds n ≡ 0
unfolding rounds
rounds-zero n e = omega (arith, e)

test-true :
    (c d : Bool) (rest result : ℤ) → c ≡ true → d ≡ true → (if c && d then rest else result) ≡ rest
test-true c d rest result e f = ground (arith, e, f)

test-false :
    (c d : Bool) (rest result : ℤ)
    → (c ≡ false) ⊎ (d ≡ false)
    → (if c && d then rest else result) ≡ result
test-false c d rest result (inl e) = ground (arith, e)
test-false c d rest result (inr e) = ground (arith, e)

at_zero : (limit b n : ℕ) → n ≡ 0 → pos (min limit b) ≡ pos (min limit (b * 4 ^ rounds n))
at_zero limit b n e =
    ap (λ x. pos (min limit x)) (once b ∙ ap (λ k. b * 4 ^ k) (sym (rounds-zero n e)))
  where
    once : (b : ℕ) → b ≡ b * 1
    once b = omega arith

at_limit : (limit b k : ℕ) → limit ≤ b → pos (min limit b) ≡ pos (min limit (b * 4 ^ k))
at_limit limit b k h = ap pos (both limit b (b * 4 ^ k) h (one_le b k))
  where
    both : (l b c : ℕ) → l ≤ b → b ≤ c → min l b ≡ min l c
    both l b c h k = omega (arith, h, k)

-- With enough fuel the loop multiplies by 4 for each round, up to the limit.
min_work_loop-clamp :
    (net : Net) (limit fuel b : ℕ) (time : ℤ)
    → net.env.proof_of_work_limit ≡ pos limit
    → pos_part time ≤ fuel * 4838400
    → clamp limit (min_work_loop net fuel time (pos b))
      ≡ pos (min limit (b * 4 ^ rounds (pos_part time)))
unfolding min_work_loop
min_work_loop-clamp net limit zero b time e h =
    clamp-min limit b ∙ at_zero limit b (pos_part time) (omega (arith, h))
min_work_loop-clamp net limit (suc fuel) b time e h =
    step (Bool-cases (ltb_ℤ (pos 0) time)) (Bool-cases (ltb b limit)) (
      ap (λ r. clamp limit (min_work_loop net fuel (time -ℤ pos 4838400) r)) (four_times b)
      ∙ min_work_loop-clamp net limit fuel (b * 4) (time -ℤ pos 4838400) e
          (omega (arith, h, pos_part_later time)))
  where
    Goal : Type 0
    Goal =
        clamp limit (min_work_loop net (suc fuel) time (pos b))
        ≡ pos (min limit (b * 4 ^ rounds (pos_part time)))

    below : (v : Bool) → ltb b limit ≡ v → ltb_ℤ (pos b) net.env.proof_of_work_limit ≡ v
    below v f = ap (λ l. ltb_ℤ (pos b) l) e ∙ plain b limit ∙ f
      where
        plain : (a c : ℕ) → ltb_ℤ (pos a) (pos c) ≡ ltb a c
        plain a c = ground arith

    more : (t : ℤ) → ltb_ℤ (pos 0) t ≡ true → 0 < pos_part t
    more t f = ground (arith, f)

    over : (t : ℤ) → ltb_ℤ (pos 0) t ≡ false → pos_part t ≡ 0
    over t f = ground (arith, f)

    at_least : ltb b limit ≡ false → limit ≤ b
    at_least f = ground (arith, f)

    grows :
        0 < pos_part time
        → b * 4 * 4 ^ rounds (pos_part (time -ℤ pos 4838400)) ≡ b * 4 ^ rounds (pos_part time)
    grows p =
        ap (λ n. b * 4 * 4 ^ rounds n) (pos_part_later time)
        ∙ grown b (rounds (pos_part time - 4838400))
        ∙ ap (λ k. b * 4 ^ k) (sym (rounds-later (pos_part time) p))

    step :
        (ltb_ℤ (pos 0) time ≡ true) ⊎ (ltb_ℤ (pos 0) time ≡ false)
        → (ltb b limit ≡ true) ⊎ (ltb b limit ≡ false)
        → clamp limit (min_work_loop net fuel (time -ℤ pos 4838400) (pos b *ℤ pos 4))
          ≡ pos (min limit (b * 4 * 4 ^ rounds (pos_part (time -ℤ pos 4838400))))
        → Goal
    step (inl p) (inl q) ih =
        ap (clamp limit) (test-true _ _ _ _ p (below true q))
        ∙ ih
        ∙ ap (λ x. pos (min limit x)) (grows (more time p))
    step (inl p) (inr q) ih =
        ap (clamp limit) (test-false _ _ _ _ (inr (below false q)))
        ∙ clamp-min limit b
        ∙ at_limit limit b (rounds (pos_part time)) (at_least q)
    step (inr p) q ih =
        ap (clamp limit) (test-false _ _ _ _ (inl p))
        ∙ clamp-min limit b
        ∙ at_zero limit b (pos_part time) (over time p)

min_work-rounds :
    (net : Net) (b limit t : ℕ)
    → net.env.proof_of_work_limit ≡ pos limit
    → min_work net (pos b) (pos t) ≡ pos (min limit (b * 4 ^ rounds t))
unfolding min_work clamp
min_work-rounds net b limit t e =
    ap
      (λ l.
        let result = min_work_loop net (t / 4838400 + 1) (pos t) (pos b) in
        if ltb_ℤ l result then l else result)
      e
    ∙ min_work_loop-clamp net limit (t / 4838400 + 1) b (pos t) e (omega arith)

-- `ComputeMinWork` from a target that is not negative and for a time that is not: on the test net, after
-- more than 1200 seconds, the limit of the proof of work; otherwise the target times 4 for each time of 4838400
-- seconds that has begun, or the limit when that is less. The limit is not negative.
pub compute_min_work-rounds :
    (net : Net) (base b limit t : ℕ)
    → net.env.proof_of_work_limit ≡ pos limit
    → set_compact base ≡ pos b
    → compute_min_work net base (pos t)
      ≡ get_compact
          (if net.test_net && ltb 1200 t then pos limit else pos (min limit (b * 4 ^ rounds t)))
unfolding compute_min_work
compute_min_work-rounds net base b limit t e f =
    ap
      (λ r.
        if net.test_net && ltb_ℤ (pos 1200) (pos t)
        then get_compact net.env.proof_of_work_limit
        else get_compact r)
      (ap (λ c. min_work net c (pos t)) f ∙ min_work-rounds net b limit t e)
    ∙ ap
        (λ l.
          if net.test_net && ltb_ℤ (pos 1200) (pos t)
          then get_compact l
          else get_compact (pos (min limit (b * 4 ^ rounds t))))
        e
    ∙ choose net.test_net (ltb_ℤ (pos 1200) (pos t)) (ltb 1200 t) (pos limit)
        (pos (min limit (b * 4 ^ rounds t))) (plain 1200 t)
  where
    plain : (a c : ℕ) → ltb_ℤ (pos a) (pos c) ≡ ltb a c
    plain a c = ground arith

    pick :
        (c : Bool) (x y : ℤ)
        → (if c then get_compact x else get_compact y) ≡ get_compact (if c then x else y)
    pick true x y = refl
    pick false x y = refl

    choose :
        (n c d : Bool) (x y : ℤ)
        → c ≡ d
        → (if n && c then get_compact x else get_compact y) ≡ get_compact (if n && d then x else y)
    choose true c d x y h = pick c x y ∙ ap (λ b. get_compact (if b then x else y)) h
    choose false c d x y h = refl
