-- ===== src/Lint/TextInside/Balanced.antt =====
-- What `_GetTextInside` of tools/cpplint.py returns, by a grammar of balanced brackets.
use mathlib.Core.List.{}
use optimer.Prelude.{
  Bool-cases, List, Option-cases, [], ap, append_assoc, arith, false, inl, inr, length,
  length-append, none, refl, some, some_injective, suc, sym, take, take-append, true, zero, ℕ, ◌++◌,
  ◌+◌, ◌-◌, ◌==◌, ◌↔◌, ◌∙◌, ◌∷◌, ◌≡◌, ◌≤◌,
}
use optimer.Text.{Text}
use optimer.Lint.Expression.{closing}
use optimer.Lint.TextInside.{
  Inside, code_before, get_text_inside, inside_at, inside_from, inside_of, inside_text, is_closing,
}
use optimer.Regex.{Cursor, Regex, found, multiline, re_search}

-- Texts in which every bracket has its partner.
pub data IsBalanced : Text → Type 0 where
  nothing : IsBalanced []
  code :
      {c : ℕ} {s : Text}
      → is_closing c ≡ false
      → closing c ≡ none
      → IsBalanced s
      → IsBalanced (c ∷ s)
  brackets :
      {o c : ℕ} {s t : Text}
      → closing o ≡ some c
      → IsBalanced s
      → IsBalanced t
      → IsBalanced (o ∷ s ++ c ∷ t)

==-refl : (c : ℕ) → (c == c) ≡ true
==-refl c = ground arith

==→≡ : (a b : ℕ) → (a == b) ≡ true → a ≡ b
==→≡ a b h = ground arith

closing-is_closing : (o c : ℕ) → closing o ≡ some c → (is_closing c ≡ true) × (is_closing o ≡ false)
unfolding closing
closing-is_closing o c h = ground (arith, h)

at_end : (p : ℕ) (ps : List ℕ) (n : ℕ) → inside_from (p ∷ ps) n [] ≡ none
unfolding inside_from
at_end p ps n = refl

module _ (p : ℕ) (ps : List ℕ) (n c : ℕ) (s : Text) where
  at_partner : (c == p) ≡ true → inside_from (p ∷ ps) n (c ∷ s) ≡ inside_from ps (n + 1) s
  unfolding inside_from
  at_partner e = rw e

  at_closing : (c == p) ≡ false → is_closing c ≡ true → inside_from (p ∷ ps) n (c ∷ s) ≡ none
  unfolding inside_from
  at_closing e k = rw (e, k)

  at_opening :
      (q : ℕ)
      → (c == p) ≡ false
      → is_closing c ≡ false
      → closing c ≡ some q
      → inside_from (p ∷ ps) n (c ∷ s) ≡ inside_from (q ∷ p ∷ ps) (n + 1) s
  unfolding inside_from
  at_opening q e k o = rw (e, k, o)

  at_code :
      (c == p) ≡ false
      → is_closing c ≡ false
      → closing c ≡ none
      → inside_from (p ∷ ps) n (c ∷ s) ≡ inside_from (p ∷ ps) (n + 1) s
  unfolding inside_from
  at_code e k o = rw (e, k, o)

differ : (c p : ℕ) → is_closing p ≡ true → is_closing c ≡ false → (c == p) ≡ false
differ c p h k = elim (Bool-cases (c == p)) [ inr e ↦ e | inl e ↦ absurd (cc (==→≡ c p e, h, k)) ]

recount : (ps : List ℕ) (u : Text) {m n : ℕ} → m ≡ n → inside_from ps m u ≡ inside_from ps n u
recount ps u e = ap (λ (k : ℕ). inside_from ps k u) e

-- The scan passes a balanced text and the closing bracket behind it.
inside_from-IsBalanced :
    {t : Text}
    → IsBalanced t
    → (p : ℕ) (ps : List ℕ) (n : ℕ) (u : Text) → is_closing p ≡ true
    → inside_from (p ∷ ps) n (t ++ p ∷ u) ≡ inside_from ps (n + length t + 1) u
inside_from-IsBalanced nothing p ps n u h =
    at_partner p ps n p u (==-refl p) ∙ recount ps u (omega arith)
inside_from-IsBalanced (code {c = c} {s = s} k o b) p ps n u h =
    at_code p ps n c (s ++ p ∷ u) (differ c p h k) k o
    ∙ inside_from-IsBalanced b p ps (n + 1) u h
    ∙ recount ps u (omega arith)
inside_from-IsBalanced (brackets {o = o} {c = c} {s = s} {t = t} e b b') p ps n u h =
    let (kc, ko) = closing-is_closing o c e in
    ap (λ (w : Text). inside_from (p ∷ ps) n (o ∷ w)) (append_assoc s (c ∷ t) (p ∷ u))
    ∙ at_opening p ps n o (s ++ (c ∷ (t ++ (p ∷ u)))) c (differ o p h ko) ko e
    ∙ inside_from-IsBalanced b c (p ∷ ps) (n + 1) (t ++ p ∷ u) kc
    ∙ inside_from-IsBalanced b' p ps (n + 1 + length s + 1) u h
    ∙ recount ps u (omega (arith, length-append s (c ∷ t)))

-- A scan that ends has passed a balanced text and the closing bracket behind it.
record Passed (p : ℕ) (ps : List ℕ) (n : ℕ) (s : Text) (m : ℕ) : Type 0 where
  inner : Text
  behind : Text
  is_inner : IsBalanced inner
  splits : s ≡ inner ++ p ∷ behind
  goes_on : inside_from ps (n + length inner + 1) behind ≡ some m

inside_from-Passed :
    (k p : ℕ) (ps : List ℕ) (n : ℕ) (s : Text) (m : ℕ)
    → length s ≤ k
    → inside_from (p ∷ ps) n s ≡ some m
    → Passed p ps n s m
inside_from-Passed k p ps n [] m l h = absurd (cc (at_end p ps n, h))
inside_from-Passed zero p ps n (c ∷ s) m l h = absurd (omega arith)
inside_from-Passed (suc k) p ps n (c ∷ s) m l h = elim (Bool-cases (c == p)) [
  | inl e ↦ record {
    inner = [];
    behind = s;
    is_inner = nothing;
    splits = rw (==→≡ c p e) refl;
    goes_on = recount ps s (omega arith) ∙ sym (at_partner p ps n c s e) ∙ h;
  }
  | inr e ↦ elim (Bool-cases (is_closing c)) [
    | inl i ↦ absurd (cc (at_closing p ps n c s e i, h))
    | inr i ↦ elim (Option-cases (closing c)) [
      | inl (q, o) ↦
          let r =
            inside_from-Passed k q (p ∷ ps) (n + 1) s m (omega arith)
              (sym (at_opening p ps n c s q e i o) ∙ h) in
          let shorter : length r.behind ≤ k =
            omega
              (arith, ap (λ (w : Text). length w) r.splits, length-append r.inner (q ∷ r.behind)) in
          let r' =
            inside_from-Passed k p ps (n + 1 + length r.inner + 1) r.behind m shorter r.goes_on in
          record {
            inner = c ∷ r.inner ++ q ∷ r'.inner;
            behind = r'.behind;
            is_inner = brackets o r.is_inner r'.is_inner;
            splits =
                ap (λ (w : Text). c ∷ w)
                  (r.splits
                    ∙ ap (λ (w : Text). r.inner ++ q ∷ w) r'.splits
                    ∙ sym (append_assoc r.inner (q ∷ r'.inner) (p ∷ r'.behind)));
            goes_on =
                recount ps r'.behind (omega (arith, length-append r.inner (q ∷ r'.inner)))
                ∙ r'.goes_on;
          }
      | inr o ↦
          let r =
            inside_from-Passed k p ps (n + 1) s m (omega arith)
              (sym (at_code p ps n c s e i o) ∙ h) in
          record {
            inner = c ∷ r.inner;
            behind = r.behind;
            is_inner = code i o r.is_inner;
            splits = ap (λ (w : Text). c ∷ w) r.splits;
            goes_on = recount ps r.behind (omega arith) ∙ r.goes_on;
          }
    ]
  ]
]

-- The pattern is found, it ends in an opening bracket, and behind it stand the text and the bracket
-- that closes it.
pub record IsInside (text : Text) (start_pattern : Regex) (inside : Text) : Type 0 where
  pub start : Cursor × Cursor
  pub close : ℕ
  pub behind : Text
  pub at_start : re_search (multiline start_pattern) text ≡ some start
  pub opens : closing (code_before start.1.before) ≡ some close
  pub splits : start.1.rest ≡ inside ++ close ∷ behind
  pub is_balanced : IsBalanced inside

text_of : Inside → Text
text_of (inside_text t) = t
text_of other = []

inside_text_injective : {s t : Text} → inside_text s ≡ inside_text t → s ≡ t
unfolding text_of
inside_text_injective e = ap text_of e

-- where the scan of the text behind the opening bracket ends
inner_of :
    (close : ℕ) (rest t : Text)
    → inside_of rest (inside_from (close ∷ []) 0 rest) ≡ inside_text t
    → (u : Text) × (rest ≡ t ++ close ∷ u) × IsBalanced t
unfolding inside_of inside_from
inner_of close rest t h = elim (Option-cases (inside_from (close ∷ []) 0 rest)) [
  | inr none_found ↦ cc (rw none_found at h)
  | inl (n, found) ↦
      let r = inside_from-Passed (length rest) close [] 0 rest n (omega arith) found in
      let at_inner : n - 1 ≡ length r.inner = omega (arith, some_injective r.goes_on) in
      let same : t ≡ r.inner =
        sym (inside_text_injective (rw found at h))
        ∙ ap (λ (k : ℕ). take k rest) at_inner
        ∙ ap (λ (w : Text). take (length r.inner) w) r.splits
        ∙ take-append r.inner (close ∷ r.behind) in
      (r.behind, rw same r.splits, rw same r.is_inner)
]

inside_of-IsBalanced :
    (close : ℕ) (t u : Text)
    → is_closing close ≡ true
    → IsBalanced t
    → inside_of (t ++ close ∷ u) (inside_from (close ∷ []) 0 (t ++ close ∷ u)) ≡ inside_text t
unfolding inside_of inside_from
inside_of-IsBalanced close t u k b = rw (inside_from-IsBalanced b close [] 0 u k) (
    ap (λ (w : Text). inside_text w)
      (ap (λ (n : ℕ). take n (t ++ close ∷ u)) (omega arith) ∙ take-append t (close ∷ u)))

-- `_GetTextInside` returns a text exactly when the pattern is found, with `^` and `$` at the ends of
-- each line, the match ends in an opening
-- bracket, and behind it stand the text, in which all brackets are balanced, and the bracket that
-- closes the first.
pub get_text_inside_iff :
    (text : Text) (start_pattern : Regex) (t : Text)
    → (get_text_inside text start_pattern ≡ inside_text t) ↔ IsInside text start_pattern t
unfolding get_text_inside inside_at
get_text_inside_iff text start_pattern t = (
  λ h. elim (Option-cases (re_search (multiline start_pattern) text)) [
    | inr unfound ↦ cc (rw (get_text_inside, unfound) at h)
    | inl (m, at) ↦ elim (Option-cases (closing (code_before m.1.before))) [
      | inr other ↦ cc (rw (get_text_inside, at, other) at h)
      | inl (c, o) ↦
          let (u, e, b) = inner_of c m.1.rest t (rw (get_text_inside, at, o) at h) in
          record {
            start = m;
            close = c;
            behind = u;
            at_start = at;
            opens = o;
            splits = e;
            is_balanced = b;
          }
    ]
  ],
  λ i.
      let (k, _) = closing-is_closing (code_before i.start.1.before) i.close i.opens in
      rw (get_text_inside, i.at_start, i.opens, i.splits)
        (inside_of-IsBalanced i.close t i.behind k i.is_balanced),
)
