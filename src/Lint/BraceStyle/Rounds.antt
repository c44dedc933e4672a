-- ===== src/Lint/BraceStyle/Rounds.antt =====
-- The rounds of the loop of `CheckBraces` in tools/cpplint.py.
use native.Mathlib.Decide.{ℕ_discrete}
use optimer.Prelude.{
  Bool, Bool-cases, List, Option-cases, [], ap, arith, false, inl, inr, none, not, refl, some,
  some_injective, subst, suc, sym, true, zero, ℕ, ◌++◌, ◌<◌, ◌∙◌, ◌∷◌, ◌≡◌, ◌≤◌,
}
use optimer.Text.Unicode.{is_unicode_space}
use optimer.Text.{Text, contains, find, is_space, starts_with}
use optimer.Regex.{matches, re_match, run}
use optimer.Lint.Cleanse.{line_at}
use optimer.Lint.Lines.{is_blank_line, previous_from}
use optimer.Lint.BraceStyle.{
  goes_on, join_back, previous_line, previous_number, re_braces_statement,
}

n_lt_suc : (n : ℕ) → n < suc n
n_lt_suc n = omega arith

-- what `GetPreviousNonBlankLine` finds stands above, and is not blank
pub previous_from-eq-some :
    (elided : List Text) (above : ℕ) (l : Text) (j : ℕ)
    → previous_from elided above ≡ some (l, j)
    → (j < above) × (l ≡ line_at elided j)
unfolding previous_from
previous_from-eq-some elided zero l j h = cc
previous_from-eq-some elided (suc i) l j h = elim (Bool-cases (is_blank_line (line_at elided i))) [
  | inl blank ↦
      let (below, at) = previous_from-eq-some elided i l j (rw (previous_from, blank) at h) in
      (omega arith, at)
  | inr text ↦
      let e : (line_at elided i, i) ≡ (l, j) = some_injective (rw (previous_from, text) at h) in
      let number : i ≡ j = ap (λ (p : Text × ℕ). p.1) e in
      let found_line : line_at elided i ≡ l = ap (λ (p : Text × ℕ). p.0) e in
      (
        subst (λ (k : ℕ). k < suc i) number (n_lt_suc i),
        sym found_line ∙ ap (line_at elided) number,
      )
]

module _ (elided : List Text) where
  join_back-goes_on :
      (n above : ℕ) (line : Text)
      → goes_on elided above line ≡ true
      → join_back (suc n) elided above line
        ≡ join_back n elided
            (previous_number (previous_from elided above))
            (previous_line (previous_from elided above) ++ line)
  unfolding join_back
  join_back-goes_on n above line h = rw (join_back, h) refl

  pub join_back-stops :
      (n above : ℕ) (line : Text)
      → goes_on elided above line ≡ false
      → join_back (suc n) elided above line ≡ some line
  unfolding join_back
  join_back-stops n above line h = rw (join_back, h) refl

  join_back-zero : (above : ℕ) (line : Text) → join_back 0 elided above line ≡ none
  unfolding join_back
  join_back-zero above line = refl

  join_back-from :
      (n above : ℕ) (l : Text) (j : ℕ) (line : Text)
      → previous_from elided above ≡ some (l, j)
      → join_back n elided
          (previous_number (previous_from elided above))
          (previous_line (previous_from elided above) ++ line)
        ≡ join_back n elided j (l ++ line)
  unfolding previous_number previous_line
  join_back-from n above l j line at = rw at refl

  -- Where no line stands above, the line stays as it is, and so does the test.
  goes_on-top :
      (above : ℕ) (line : Text)
      → previous_from elided above ≡ none
      → goes_on elided 0 line ≡ goes_on elided above line
  unfolding goes_on previous_from
  goes_on-top above line e = rw (goes_on, e) refl

  join_back-stuck :
      (n : ℕ) (line : Text) → goes_on elided 0 line ≡ true → join_back n elided 0 line ≡ none
  unfolding previous_from previous_number previous_line
  join_back-stuck zero line h = join_back-zero 0 line
  join_back-stuck (suc n) line h = join_back-goes_on n 0 line h ∙ join_back-stuck n line h

  pub join_back-endless :
      (n above : ℕ) (line : Text)
      → previous_from elided above ≡ none
      → goes_on elided above line ≡ true
      → join_back n elided above line ≡ none
  unfolding previous_number previous_line
  join_back-endless zero above line e h = join_back-zero above line
  join_back-endless (suc n) above line e h =
      join_back-goes_on n above line h
      ∙ rw e (join_back-stuck n line (goes_on-top above line e ∙ h))

  number_below :
      (above f : ℕ) (l : Text) (j : ℕ)
      → previous_from elided above ≡ some (l, j)
      → j < above
      → above < suc f
      → previous_number (previous_from elided above) < f
  unfolding previous_number
  number_below above f l j at below lt = rw at (omega arith)

  -- A loop that ends has ended after one round more than there are lines above.
  pub join_back-enough :
      (n fuel above : ℕ) (line r : Text)
      → above < fuel
      → join_back n elided above line ≡ some r
      → join_back fuel elided above line ≡ some r
  join_back-enough zero fuel above line r lt h = cc (join_back-zero above line)
  join_back-enough (suc n) zero above line r lt h = absurd (omega arith)
  join_back-enough (suc n) (suc f) above line r lt h =
      elim (Bool-cases (goes_on elided above line)) [
        | inr stops ↦
            join_back-stops f above line stops ∙ sym (join_back-stops n above line stops) ∙ h
        | inl on ↦ elim (Option-cases (previous_from elided above)) [
          | inr top ↦ cc (join_back-endless (suc n) above line top on)
          | inl ((l, j), at) ↦
              let (below, _) = previous_from-eq-some elided above l j at in
              join_back-goes_on f above line on
              ∙ join_back-enough n f (previous_number (previous_from elided above))
                  (previous_line (previous_from elided above) ++ line) r
                  (number_below above f l j at below lt)
                  (sym (join_back-goes_on n above line on) ∙ h)
        ]
      ]

  pub join_back-never :
      (n fuel above : ℕ) (line : Text)
      → above < fuel
      → join_back fuel elided above line ≡ none
      → join_back n elided above line ≡ none
  join_back-never n fuel above line lt h = elim (Option-cases (join_back n elided above line)) [
    | inr e ↦ e
    | inl (r, e) ↦ absurd (cc (join_back-enough n fuel above line r lt e, h))
  ]

  pub goes_on-first :
      (above : ℕ) (line : Text)
      → previous_from elided above ≡ none
      → matches re_braces_statement line ≡ true
      → goes_on elided above line ≡ true
  unfolding goes_on previous_line contains find starts_with
  goes_on-first above line top statement = rw (goes_on, statement, top) refl

not_indented : (c : ℕ) (s : Text) → is_space c ≡ false → matches re_braces_statement (c ∷ s) ≡ false
unfolding matches
not_indented c s e = rw (matches, re_match, run, e) refl

unfoldable pub begins_unindented : Text → Bool
begins_unindented [] = false
begins_unindented (c ∷ s) = not (is_unicode_space c)

goes_on-unindented :
    (elided : List Text) (above : ℕ) (s line : Text)
    → begins_unindented s ≡ true
    → goes_on elided above (s ++ line) ≡ false
unfolding goes_on begins_unindented
goes_on-unindented elided above [] line h = cc
goes_on-unindented elided above (c ∷ s) line h =
    rw (goes_on, not_indented c (s ++ line) (ground (arith, h)))

is_blank_line-unindented : (s : Text) → begins_unindented s ≡ true → is_blank_line s ≡ false
unfolding begins_unindented is_blank_line
is_blank_line-unindented [] h = cc
is_blank_line-unindented (c ∷ s) h = ground (arith, h)

module _ (elided : List Text) (i : ℕ) (plain : begins_unindented (line_at elided i) ≡ true) where
  -- the line above that is found stands at `i` or below it
  previous_from-found :
      (above : ℕ)
      → i < above
      → (l : Text) × (j : ℕ) × (previous_from elided above ≡ some (l, j)) × (i ≤ j)
  unfolding previous_from
  previous_from-found zero lt = absurd (omega arith)
  previous_from-found (suc k) lt = elim (Bool-cases (is_blank_line (line_at elided k))) [
    | inr text ↦ (line_at elided k, k, rw (previous_from, text), omega arith)
    | inl blank ↦ elim (ℕ_discrete i k) [
      | yes e ↦
          absurd (cc (is_blank_line-unindented (line_at elided i) plain, ap (line_at elided) e))
      | no e ↦
          let (l, j, at, le) = previous_from-found k (omega arith) in
          (l, j, rw (previous_from, blank) at, le)
    ]
  ]

  pub join_back-ends :
      (k above : ℕ) (line : Text)
      → i < above
      → above < k
      → (r : Text) × (join_back (suc k) elided above line ≡ some r)
  join_back-ends zero above line lt le = absurd (omega arith)
  join_back-ends (suc k) above line lt le = elim (Bool-cases (goes_on elided above line)) [
    | inr stops ↦ (line, join_back-stops elided (suc k) above line stops)
    | inl on ↦
        let (l, j, at, le') = previous_from-found above lt in
        let (below, text) = previous_from-eq-some elided above l j at in
        let (r, ends) : (r : Text) × (join_back (suc k) elided j (l ++ line) ≡ some r) =
          elim (ℕ_discrete i j) [
            | yes e ↦ (
              l ++ line,
              join_back-stops elided k j (l ++ line)
                  (goes_on-unindented elided j l line (cc (plain, text, ap (line_at elided) e))),
            )
            | no e ↦ join_back-ends k j (l ++ line) (omega arith) (omega arith)
          ] in
        (
          r,
          join_back-goes_on elided (suc k) above line on
              ∙ join_back-from elided (suc k) above l j line at
              ∙ ends,
        )
  ]
