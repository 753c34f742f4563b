-- ===== src/Checkpoints/Last.antt =====
-- checkpoints.cpp: which checkpoint GetLastCheckpoint finds.
use mathlib.Core.Bool.{true}
use tri_tip.Prelude.{ap, arith, inl, inr, List, none, Option-cases, refl, some, ℕ, ◌≡◌, ◌∷◌, []}
use tri_tip.Prelude.Maps.{find, In}
use mathlib.Core.Bool.{Bool, false, ◌&&◌}
use tri_tip.Prelude.{Option, ltb, ◌<◌, ◌≤◌, ◌∙◌, ◌⊎◌}
use tri_tip.Checkpoints.{get_last_checkpoint, reverse_loop}

-- The heights rise, as in any map.
abbrev pub above : ℕ → List (ℕ × ℕ) → Bool
above h [] = true
above h ((k, hash) ∷ cs) = ltb h k && above h cs

abbrev pub rises : List (ℕ × ℕ) → Bool
rises [] = true
rises ((h, hash) ∷ cs) = above h cs && rises cs

-- The highest checkpoint whose block the index knows, and that block
pub record Highest {A : Type 0} (index : List (ℕ × A)) (cs : List (ℕ × ℕ)) (a : A) : Type 0 where
  pub height : ℕ
  pub hash : ℕ
  pub listed : In height hash cs
  pub known : find hash index ≡ some a
  pub highest : (h k : ℕ) (b : A) → In h k cs → find k index ≡ some b → h ≤ height

-- The index knows the block of no checkpoint.
abbrev pub Unknown : {A : Type 0} → List (ℕ × A) → List (ℕ × ℕ) → Type 0
Unknown index cs = (h k : ℕ) → In h k cs → find k index ≡ none

above-In : (h k hash : ℕ) (cs : List (ℕ × ℕ)) → above h cs ≡ true → In k hash cs → h < k
above-In h k hash [] a i = elim i [ ]
above-In h k hash ((j, c) ∷ cs) a (inl e) = ground (arith, a, e.0)
above-In h k hash ((j, c) ∷ cs) a (inr i) = above-In h k hash cs (ground (arith, a)) i

module _ {A : Type 0} (index : List (ℕ × A)) where
  find_same : (k hash : ℕ) (o : Option A) → k ≡ hash → find hash index ≡ o → find k index ≡ o
  find_same k hash o e f = ap (λ x. find x index) e ∙ f

  reverse_none : (cs : List (ℕ × ℕ)) → reverse_loop index cs ≡ none → Unknown index cs
  unfolding reverse_loop
  reverse_none [] e h k i = elim i [ ]
  reverse_none ((j, hash) ∷ cs) e h k i = elim (Option-cases (reverse_loop index cs)) [
    | inl f ↦ elim i [
      | inl q ↦ find_same k hash none q.1 (ground arith)
      | inr r ↦ reverse_none cs f h k r
    ]
    | inr (a, f) ↦ absurd (ground arith)
  ]

  none-some : (o : Option A) (b : A) {B : Type 0} → o ≡ none → o ≡ some b → B
  none-some o b e f = absurd (ground (arith, e, f))

  reverse_some :
      (cs : List (ℕ × ℕ)) (a : A)
      → rises cs ≡ true
      → reverse_loop index cs ≡ some a
      → Highest index cs a
  unfolding reverse_loop
  reverse_some [] a r e = absurd (ground arith)
  reverse_some ((j, hash) ∷ cs) a r e = elim (Option-cases (reverse_loop index cs)) [
    | inl f ↦ record {
      height = j;
      hash = hash;
      listed = inl (refl, refl);
      known = ground arith;
      highest = λ h k b i g. elim i [
        | inl q ↦ omega (arith, q.0)
        | inr q ↦ none-some (find k index) b (reverse_none cs f h k q) g
      ];
    }
    | inr (b, f) ↦
        let t = reverse_some cs a (ground (arith, r)) (ground arith) in
        record {
          height = t.height;
          hash = t.hash;
          listed = inr t.listed;
          known = t.known;
          highest = λ h k c i g. elim i [
            | inl q ↦ omega (arith, q.0, above-In j t.height t.hash cs (ground (arith, r)) t.listed)
            | inr q ↦ t.highest h k c q g
          ];
        }
  ]

  -- With checkpoints on, and heights that rise, `GetLastCheckpoint` finds the block of the highest
  -- checkpoint that the index knows, and none only if the index knows none of them; with checkpoints off it
  -- finds none.
  pub get_last_checkpoint-Highest :
      (enabled : Bool) (cs : List (ℕ × ℕ))
      → rises cs ≡ true
      → ((a : A)
          → get_last_checkpoint enabled index cs ≡ some a
          → (enabled ≡ true) × Highest index cs a)
        × (get_last_checkpoint enabled index cs ≡ none → (enabled ≡ false) ⊎ Unknown index cs)
        × (enabled ≡ false → get_last_checkpoint enabled index cs ≡ none)
  unfolding get_last_checkpoint
  get_last_checkpoint-Highest true cs r = (
    λ a e. (refl, reverse_some cs a r e),
    λ e. inr (reverse_none cs e),
    λ e. absurd (ground (arith, e)),
  )
  get_last_checkpoint-Highest false cs r =
      (λ a e. absurd (ground (arith, e)), λ e. inl refl, λ e. refl)
