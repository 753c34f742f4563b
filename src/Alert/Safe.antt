-- ===== src/Alert/Safe.antt =====
-- alert.cpp: the text given to the -alertnotify command, and RelayTo.
use tri_tip.Prelude.Int.{ℤ}
use mathlib.Core.Bool.{◌&&◌, Bool, false, true}
use tri_tip.Prelude.{
  ap, arith, Bool-cases, if◌then◌else◌, inl, inr, List, refl, sym, ℕ, ◌==◌, ◌≡◌, ◌∙◌, ◌∷◌, ◌⊎◌, [],
}
use tri_tip.Alert.{Alert, Env, member, safe_chars, safe_chars_of, relay_to, is_in_effect}

member-cons : (c s : ℕ) (ss : List ℕ) → member c (s ∷ ss) ≡ (if s == c then true else member c ss)
unfolding member
member-cons c s ss = refl

member_eq : (c d : ℕ) (ss : List ℕ) → (d == c) ≡ true → member c ss ≡ member d ss
member_eq c d ss e = let q : d ≡ c = ground arith in ap (λ x. member x ss) (sym q)

member_absent : (c : ℕ) → member c [] ≡ false
unfolding member
member_absent c = refl

member_filtered :
    (c : ℕ) (text : List ℕ) → member c (safe_chars_of text) ≡ (member c text && member c safe_chars)
unfolding safe_chars_of
member_filtered c [] = rw (member_absent c) refl
member_filtered c (d ∷ text) =
    step (Bool-cases (member d safe_chars)) (Bool-cases (d == c)) (member_filtered c text)
  where
    Kept : Type 0
    Kept =
        member c (if member d safe_chars then d ∷ safe_chars_of text else safe_chars_of text)
        ≡ (member c (d ∷ text) && member c safe_chars)

    step :
        (member d safe_chars ≡ true) ⊎ (member d safe_chars ≡ false)
        → ((d == c) ≡ true) ⊎ ((d == c) ≡ false)
        → member c (safe_chars_of text) ≡ (member c text && member c safe_chars)
        → Kept
    step (inl s) (inl e) ih =
        rw
          (
            s,
            member-cons c d (safe_chars_of text),
            member-cons c d text,
            e,
            member_eq c d safe_chars e,
            s,
          )
          refl
    step (inl s) (inr e) ih =
        rw (s, member-cons c d (safe_chars_of text), member-cons c d text, e) ih
    step (inr s) (inl e) ih =
        rw (s, ih, member-cons c d text, e, member_eq c d safe_chars e, s) (ground arith)
    step (inr s) (inr e) ih = rw (s, member-cons c d text, e) ih

no_quote : (b : Bool) → (b && member 39 safe_chars) ≡ false
unfolding member
no_quote true = refl
no_quote false = refl

-- A character stands in the text made safe exactly where it is one of the text's and safe; the
-- quote, which would end the string in the shell, is none of them.
pub member-safe_chars_of :
    (c : ℕ) (text : List ℕ)
    → (member c (safe_chars_of text) ≡ (member c text && member c safe_chars))
      × (member 39 (safe_chars_of text) ≡ false)
member-safe_chars_of c text =
    (member_filtered c text, member_filtered 39 text ∙ no_quote (member 39 text))

-- `RelayTo` a second time sends nothing and changes nothing; it sends only an alert in effect.
pub relay_to_once :
    (env : Env) (version : ℤ) (sub_ver : List ℕ) (a : Alert) (known : List ℕ)
    → (relay_to env version sub_ver a (relay_to env version sub_ver a known).1
        ≡ (false, (relay_to env version sub_ver a known).1))
      × ((relay_to env version sub_ver a known).0 ≡ true → is_in_effect env.now a ≡ true)
unfolding relay_to
relay_to_once env version sub_ver a known =
    ground (arith, member-cons (env.hash a.msg) (env.hash a.msg) known)
