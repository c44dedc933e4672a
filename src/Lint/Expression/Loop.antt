-- ===== src/Lint/Expression/Loop.antt =====
-- The loop of `CloseExpression` of tools/cpplint.py over the lines behind the first.
use mathlib.Core.List.{flatten}
use optimer.Prelude.{
  Bool-cases, List, [], ap, arith, inl, inr, leb, leb→le, leb→lt, length, none, refl, some, suc,
  sym, take, zero, ℕ, ◌++◌, ◌+◌, ◌<◌, ◌∷◌, ◌≡◌, ◌≢◌, ◌≤◌,
}
use optimer.Text.{Text}
use optimer.Lint.Expression.{Pointer, close_loop, count_code, find_end_of_expression_in_line}
use optimer.Lint.Expression.Scan.{
  IsFirstZero, count_code-append, end_from-eq-some, end_from-ne-none,
}

-- From `opens` and `closes` at the start of `rest`, which begins after line `linenum`, the lines
-- before that of `r` leave brackets open, and `p` is the first position of the line of `r` where the
-- depth is 0.
pub record IsBalanced (startchar endchar opens closes linenum : ℕ) (rest : List Text) (r : Pointer)
    (p : ℕ) : Type 0 where
  pub passed : List Text
  pub after : List Text
  pub parts : rest ≡ passed ++ r.line ∷ after
  pub number : r.linenum ≡ linenum + 1 + length passed
  pub still_open :
      (m : ℕ)
      → m ≤ length passed
      → closes + count_code endchar (flatten (take m passed))
        < opens + count_code startchar (flatten (take m passed))
  pub first_zero :
      IsFirstZero startchar endchar
        (opens + count_code startchar (flatten passed))
        (closes + count_code endchar (flatten passed))
        r.line
        p

module _ (startchar endchar : ℕ) (differ : startchar ≢ endchar) where
  still_open-next :
      (opens closes : ℕ) (next : Text) (passed : List Text)
      → closes < opens
      → ((m : ℕ)
          → m ≤ length passed
          → closes + count_code endchar next + count_code endchar (flatten (take m passed))
            < opens + count_code startchar next + count_code startchar (flatten (take m passed)))
      → (m : ℕ) → m ≤ length (next ∷ passed)
      → closes + count_code endchar (flatten (take m (next ∷ passed)))
        < opens + count_code startchar (flatten (take m (next ∷ passed)))
  unfolding flatten count_code
  still_open-next opens closes next passed d h zero l = omega arith
  still_open-next opens closes next passed d h (suc m) l = omega (
    arith,
    h m (omega arith),
    count_code-append startchar next (flatten (take m passed)),
    count_code-append endchar next (flatten (take m passed)),
  )

  pub close_loop-IsBalanced :
      (num_lines opens closes linenum : ℕ) (line : Text) (rest : List Text) (p : ℕ)
      → closes < opens
      → (close_loop num_lines startchar endchar opens closes linenum line rest).position ≡ some p
      → IsBalanced startchar endchar opens closes linenum rest
          (close_loop num_lines startchar endchar opens closes linenum line rest)
          p
  unfolding close_loop find_end_of_expression_in_line flatten count_code
  close_loop-IsBalanced num_lines opens closes linenum line [] p d = λ h. cc
  close_loop-IsBalanced num_lines opens closes linenum line (next ∷ rest) p d =
      let opens' = opens + count_code startchar next in
      let closes' = closes + count_code endchar next in
      elim (Bool-cases (leb opens' closes')) [
        | inl stop ↦ rw stop λ h.
            let (k, at, b) = end_from-eq-some startchar endchar differ 0 opens closes next p d h in
            let same : p ≡ k = omega arith in
            let at_opens : opens ≡ opens + 0 = omega arith in
            let at_closes : closes ≡ closes + 0 = omega arith in
            record {
              passed = [];
              after = rest;
              parts = refl;
              number = omega arith;
              still_open = λ m l. still_open-nil m l d;
              first_zero = rw (sym at_opens, sym at_closes, same) b;
            }
        | inr more ↦ rw more λ h.
            let ih =
              close_loop-IsBalanced num_lines opens' closes' (linenum + 1) next rest p
                (leb→lt opens' closes' more) h in
            let text = flatten ih.passed in
            let at_opens : opens' + count_code startchar text
                ≡ opens + count_code startchar (next ++ text) =
              omega (arith, count_code-append startchar next text) in
            let at_closes : closes' + count_code endchar text
                ≡ closes + count_code endchar (next ++ text) =
              omega (arith, count_code-append endchar next text) in
            record {
              passed = next ∷ ih.passed;
              after = ih.after;
              parts = ap (λ (t : List Text). next ∷ t) ih.parts;
              number = omega (arith, ih.number);
              still_open = still_open-next opens closes next ih.passed d ih.still_open;
              first_zero = rw (sym at_opens, sym at_closes) ih.first_zero;
            }
      ]
    where
      still_open-nil :
          {opens closes : ℕ} (m : ℕ)
          → m ≤ 0
          → closes < opens
          → closes + count_code endchar (flatten (take m []))
            < opens + count_code startchar (flatten (take m []))
      still_open-nil zero l d = omega arith
      still_open-nil (suc m) l d = absurd (omega arith)

  -- The loop stops at a line of the file only where it has a position on it.
  pub close_loop-found :
      (num_lines opens closes linenum : ℕ) (line : Text) (rest : List Text)
      → closes < opens
      → (close_loop num_lines startchar endchar opens closes linenum line rest).position ≡ none
      → (close_loop num_lines startchar endchar opens closes linenum line rest).linenum ≡ num_lines
  unfolding close_loop find_end_of_expression_in_line
  close_loop-found num_lines opens closes linenum line [] d = λ h. refl
  close_loop-found num_lines opens closes linenum line (next ∷ rest) d =
      let opens' = opens + count_code startchar next in
      let closes' = closes + count_code endchar next in
      elim (Bool-cases (leb opens' closes')) [
        | inl stop ↦ rw stop λ h. absurd (
            end_from-ne-none startchar endchar differ 0 opens closes next d
              (leb→le opens' closes' stop) h)
        | inr more ↦ rw more (
            close_loop-found num_lines opens' closes' (linenum + 1) next rest
              (leb→lt opens' closes' more))
      ]
