-- ===== src/Strings/Pieces.antt =====
-- util.cpp, ParseString: the pieces of a string.
use tri_tip.Prelude.{==_iff}
use Prim.{⊥}
use tri_tip.Prelude.{
  ap, arith, Bool-cases, inl, inr, List, refl, sym, ℕ, ◌++◌, ◌==◌, ◌≡◌, ◌∙◌, ◌∷◌, ◌≢◌, [],
}
use tri_tip.Strings.{parse_loop, parse_string, onto_first}

abbrev pub join : ℕ → List (List ℕ) → List ℕ
join c [] = []
join c (p ∷ []) = p
join c (p ∷ q ∷ ps) = p ++ c ∷ join c (q ∷ ps)

abbrev pub Without : ℕ → List ℕ → Type 0
Without c [] = Unit {0}
Without c (a ∷ s) = (a ≢ c) × Without c s

abbrev pub AllWithout : ℕ → List (List ℕ) → Type 0
AllWithout c [] = Unit {0}
AllWithout c (p ∷ ps) = Without c p × AllWithout c ps

abbrev Some : List (List ℕ) → Type 0
Some [] = ⊥
Some (p ∷ ps) = Unit {0}

join-onto_first :
    (c a : ℕ) (ps : List (List ℕ)) → Some ps → join c (onto_first a ps) ≡ a ∷ join c ps
unfolding onto_first
join-onto_first c a [] s = elim s [ ]
join-onto_first c a (p ∷ []) s = refl
join-onto_first c a (p ∷ q ∷ ps) s = refl

join-next : (c : ℕ) (ps : List (List ℕ)) → Some ps → join c ([] ∷ ps) ≡ c ∷ join c ps
join-next c [] s = elim s [ ]
join-next c (p ∷ ps) s = refl

onto_first-AllWithout :
    (c a : ℕ) (ps : List (List ℕ))
    → a ≢ c
    → Some ps
    → AllWithout c ps
    → Some (onto_first a ps) × AllWithout c (onto_first a ps)
unfolding onto_first
onto_first-AllWithout c a [] ne s w = elim s [ ]
onto_first-AllWithout c a (p ∷ ps) ne s (w, ws) = (tt, ((ne, w), ws))

parse_loop-join :
    (c : ℕ) (s : List ℕ)
    → (join c (parse_loop c s) ≡ s) × Some (parse_loop c s) × AllWithout c (parse_loop c s)
unfolding parse_loop
parse_loop-join c [] = (refl, tt, (tt, tt))
parse_loop-join c (a ∷ s) =
    let ih = parse_loop-join c s in
    elim (Bool-cases (a == c)) [
      | inl e ↦ rw e (
        join-next c (parse_loop c s) ih.1 ∙ (λ i. sym ((==_iff a c).0 e) i ∷ ih.0 i),
        tt,
        (tt, ih.2),
      )
      | inr e ↦
          let w =
            onto_first-AllWithout c a (parse_loop c s) (λ q. absurd (ground arith)) ih.1 ih.2 in
          rw e (join-onto_first c a (parse_loop c s) ih.1 ∙ ap (λ t. a ∷ t) ih.0, w.0, w.1)
    ]

-- `ParseString` on a string that is not empty adds pieces, none of which has the separator and which,
-- joined by it, give the string back; on an empty string it adds nothing.
pub parse_string-join :
    (s : List ℕ) (c : ℕ) (v : List (List ℕ))
    → (parse_string [] c v ≡ v)
      × ((a : ℕ)
          → (ps : List (List ℕ)) × (parse_string (a ∷ s) c v ≡ v ++ ps)
            × (join c ps ≡ a ∷ s)
            × AllWithout c ps)
unfolding parse_string
parse_string-join s c v =
    (refl, λ a. let r = parse_loop-join c (a ∷ s) in (parse_loop c (a ∷ s), refl, r.0, r.2))
