-- ===== src/Strings/Wildcards.antt =====
-- util.cpp, WildcardMatch: what a mask matches.
use tri_tip.Prelude.{==_iff}
use mathlib.Core.Path.{subst}
use mathlib.Core.Bool.{◌||◌, Bool, false, true}
use tri_tip.Prelude.{
  ap, arith, Bool-cases, inl, inr, List, refl, sym, ℕ, ◌==◌, ◌≡◌, ◌∙◌, ◌∷◌, ◌≢◌, [],
}
use tri_tip.Strings.{wildcard_match, star_match, char_match}

pub data Matches : List ℕ → List ℕ → Type 0 where
  ends : Matches [] []
  star_here : {s mask : List ℕ} → Matches s mask → Matches s (42 ∷ mask)
  star_more : {s mask : List ℕ} (c : ℕ) → Matches s (42 ∷ mask) → Matches (c ∷ s) (42 ∷ mask)
  any : {s mask : List ℕ} (c : ℕ) → Matches s mask → Matches (c ∷ s) (63 ∷ mask)
  same : {s mask : List ℕ} (c : ℕ) → c ≢ 42 → c ≢ 63 → Matches s mask → Matches (c ∷ s) (c ∷ mask)

star_sound :
    (mask : List ℕ)
    → ((s : List ℕ) → wildcard_match s mask ≡ true → Matches s mask)
    → (s : List ℕ) → star_match (λ t. wildcard_match t mask) s ≡ true
    → Matches s (42 ∷ mask)
unfolding star_match
star_sound mask ih [] e = star_here (ih [] e)
star_sound mask ih (c ∷ s) e = elim (Bool-cases (wildcard_match (c ∷ s) mask)) [
  | inl f ↦ star_here (ih (c ∷ s) f)
  | inr f ↦
      star_more c (
        star_sound mask ih s (sym (ap (λ b. b || star_match (λ t. wildcard_match t mask) s) f) ∙ e))
]

char_sound :
    (m : ℕ) (mask : List ℕ)
    → ((s : List ℕ) → wildcard_match s mask ≡ true → Matches s mask)
    → m ≢ 42
    → (s : List ℕ) → char_match m (λ t. wildcard_match t mask) s ≡ true
    → Matches s (m ∷ mask)
unfolding char_match
char_sound m mask ih ne [] e = absurd (ground arith)
char_sound m mask ih ne (c ∷ s) e = elim (Bool-cases (m == 63)) [
  | inl f ↦
      subst (λ x. Matches (c ∷ s) (x ∷ mask)) (sym ((==_iff m 63).0 f))
        (any c (ih s (ground arith)))
  | inr f ↦ elim (Bool-cases (c == m)) [
    | inl g ↦
        let q : c ≡ m = (==_iff c m).0 g in
        subst (λ x. Matches (c ∷ s) (x ∷ mask)) q
          (same c (λ h. ne (sym q ∙ h)) (λ h. absurd (ground arith)) (ih s (ground arith)))
    | inr g ↦ absurd (ground arith)
  ]
]

sound : (mask s : List ℕ) → wildcard_match s mask ≡ true → Matches s mask
unfolding wildcard_match
sound [] [] e = ends
sound [] (c ∷ s) e = absurd (ground arith)
sound (m ∷ mask) s e = elim (Bool-cases (m == 42)) [
  | inl f ↦
      subst (λ x. Matches s (x ∷ mask)) (sym ((==_iff m 42).0 f))
        (star_sound mask (sound mask) s (sym (rw f refl) ∙ e))
  | inr f ↦ char_sound m mask (sound mask) (λ h. absurd (ground arith)) s (sym (rw f refl) ∙ e)
]

complete : (mask s : List ℕ) → Matches s mask → wildcard_match s mask ≡ true
unfolding wildcard_match
complete mask s ends = refl
complete mask s (star_here {s = s₀} {mask = mask₀} h) = from_here s₀ (complete mask₀ s₀ h)
  where
    from_here :
        (s : List ℕ)
        → wildcard_match s mask₀ ≡ true
        → star_match (λ t. wildcard_match t mask₀) s ≡ true
    from_here [] e = e
    from_here (c ∷ s) e = ap (λ b. b || star_match (λ t. wildcard_match t mask₀) s) e
complete mask s (star_more {s = s₀} {mask = mask₀} c h) =
    ap (λ b. wildcard_match (c ∷ s₀) mask₀ || b) (complete (42 ∷ mask₀) s₀ h) ∙ either _
  where
    either : (b : Bool) → (b || true) ≡ true
    either b = ground arith
complete mask s (any {s = s₀} {mask = mask₀} c h) = complete mask₀ s₀ h
complete mask s (same {s = s₀} {mask = mask₀} c ne₁ ne₂ h) =
    let star : (c == 42) ≡ false = ground arith in
    let quest : (c == 63) ≡ false = ground arith in
    let self : (c == c) ≡ true = ground arith in rw (star, quest, self) (complete mask₀ s₀ h)

-- `WildcardMatch` holds exactly if the string matches the mask: `*` stands for any characters, `?` for
-- one, and any other character for itself.
pub wildcard_match-Matches :
    (s mask : List ℕ)
    → (wildcard_match s mask ≡ true → Matches s mask)
      × (Matches s mask → wildcard_match s mask ≡ true)
wildcard_match-Matches s mask = (sound mask s, complete mask s)
