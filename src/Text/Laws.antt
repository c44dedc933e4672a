-- ===== src/Text/Laws.antt =====
-- Laws of the text operations that the proofs use.
use mathlib.Core.List.{reverse, reverse-append, reverse-reverse}
use optimer.Prelude.{
  &&-eq-true, Bool-cases, List, Option-cases, [], any, ap, arith, false, inl, inr, refl, sym, true,
  ℕ, ◌++◌, ◌==◌, ◌↔◌, ◌∙◌, ◌∷◌, ◌≡◌,
}
use optimer.Text.{Text, contains, ends_with, find, join, split, starts_with, text_eq}

pub text_eq_refl : (s : Text) → text_eq s s ≡ true
unfolding text_eq
text_eq_refl [] = refl
text_eq_refl (a ∷ s) = ground (arith, text_eq_refl s)

pub text_eq→≡ : (s t : Text) → text_eq s t ≡ true → s ≡ t
unfolding text_eq
text_eq→≡ [] [] h = refl
text_eq→≡ [] (b ∷ t) h = ground arith
text_eq→≡ (a ∷ s) [] h = ground arith
text_eq→≡ (a ∷ s) (b ∷ t) h = ground (arith, text_eq→≡ s t)

pub text_eq_iff : (s t : Text) → (text_eq s t ≡ true) ↔ (s ≡ t)
text_eq_iff s t = (text_eq→≡ s t, λ e. subst_eq s t e)
  where
    subst_eq : (s t : Text) → s ≡ t → text_eq s t ≡ true
    subst_eq s t e = cc (e, text_eq_refl s)

abbrev pub Without : ℕ → Text → Type 0
Without sep s = any (λ c. c == sep) s ≡ false

abbrev pub AllWithout : ℕ → List Text → Type 0
AllWithout sep [] = Unit
AllWithout sep (t ∷ ts) = Without sep t × AllWithout sep ts

pub split-Without : (sep : ℕ) (s : Text) → Without sep s → split sep s ≡ s ∷ []
unfolding split
split-Without sep [] h = refl
split-Without sep (c ∷ s) h = ground (arith, split-Without sep s)

pub split-append :
    (sep : ℕ) (s t : Text) → Without sep s → split sep (s ++ sep ∷ t) ≡ s ∷ split sep t
unfolding split
split-append sep [] t h = ground arith
split-append sep (c ∷ s) t h = ground (arith, split-append sep s t)

-- Pieces that are joined by a code that they do not hold come apart again.
pub split-join :
    (sep : ℕ) (t : Text) (ts : List Text)
    → Without sep t
    → AllWithout sep ts
    → split sep (join (sep ∷ []) (t ∷ ts)) ≡ t ∷ ts
unfolding join
split-join sep t [] h hs = split-Without sep t h
split-join sep t (u ∷ ts) h hs =
    split-append sep t (join (sep ∷ []) (u ∷ ts)) h
    ∙ ap (λ (l : List Text). t ∷ l) (split-join sep u ts hs.0 hs.1)

pub starts_with→append : (s p : Text) → starts_with s p ≡ true → (t : Text) × (s ≡ p ++ t)
unfolding starts_with
starts_with→append s [] h = (s, refl)
starts_with→append [] (b ∷ p) h = cc
starts_with→append (a ∷ s) (b ∷ p) h =
    let (same, rest) = &&-eq-true (a == b) (starts_with s p) h in
    let (t, e) = starts_with→append s p rest in
    let head : a ≡ b = ground (arith, same) in (t, cc (head, e))

pub starts_with-append : (p t : Text) → starts_with (p ++ t) p ≡ true
unfolding starts_with
starts_with-append [] t = refl
starts_with-append (c ∷ p) t = ground (arith, starts_with-append p t)

pub ends_with→append : (s p : Text) → ends_with s p ≡ true → (t : Text) × (s ≡ t ++ p)
unfolding ends_with
ends_with→append s p h =
    let (t, e) = starts_with→append (reverse s) (reverse p) h in
    (
      reverse t,
      sym (reverse-reverse s)
          ∙ ap (λ (u : Text). reverse u) e
          ∙ reverse-append (reverse p) t
          ∙ ap (λ (u : Text). reverse t ++ u) (reverse-reverse p),
    )

pub ends_with-append : (t p : Text) → ends_with (t ++ p) p ≡ true
unfolding ends_with
ends_with-append t p = rw (reverse-append t p) (starts_with-append (reverse p) (reverse t))

-- A text contains another exactly when it is that text between two.
contains→append : (s p : Text) → contains s p ≡ true → (u v : Text) × (s ≡ u ++ p ++ v)
unfolding contains find
contains→append [] p h = elim (Bool-cases (starts_with [] p)) [
  | inl starts ↦ let (v, e) = starts_with→append [] p starts in ([], v, e)
  | inr other ↦ cc (rw (contains, find, other) at h)
]
contains→append (c ∷ s) p h = elim (Bool-cases (starts_with (c ∷ s) p)) [
  | inl starts ↦ let (v, e) = starts_with→append (c ∷ s) p starts in ([], v, e)
  | inr other ↦ elim (Option-cases (find s p)) [
    | inr none_found ↦ cc (rw (contains, find, other, none_found) at h)
    | inl (n, found) ↦
        let (u, v, e) = contains→append s p (rw (contains, found) refl) in
        (c ∷ u, v, ap (λ (w : Text). c ∷ w) e)
  ]
]

contains-starts_with : (s p : Text) → starts_with s p ≡ true → contains s p ≡ true
unfolding contains find
contains-starts_with [] p h = rw (contains, find, h) refl
contains-starts_with (c ∷ s) p h = rw (contains, find, h) refl

contains-append : (u p v : Text) → contains (u ++ p ++ v) p ≡ true
unfolding contains find
contains-append [] p v = contains-starts_with (p ++ v) p (starts_with-append p v)
contains-append (c ∷ u) p v = elim (Bool-cases (starts_with (c ∷ u ++ p ++ v) p)) [
  | inl starts ↦ rw (contains, find, starts) refl
  | inr other ↦ elim (Option-cases (find (u ++ p ++ v) p)) [
    | inr none_found ↦ absurd (cc (rw (contains, none_found) at (contains-append u p v)))
    | inl (n, found) ↦ rw (contains, find, other, found) refl
  ]
]

pub contains_iff : (s p : Text) → (contains s p ≡ true) ↔ ((u v : Text) × (s ≡ u ++ p ++ v))
contains_iff s p = (contains→append s p, λ h. let (u, v, e) = h in rw e (contains-append u p v))
