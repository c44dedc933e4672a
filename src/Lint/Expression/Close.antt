-- ===== src/Lint/Expression/Close.antt =====
-- What `CloseExpression` of tools/cpplint.py points to.
use optimer.Prelude.{
  Option, [], arith, drop, none, refl, some, some_injective, suc, sym, zero, ℕ, ◌+◌, ◌<◌, ◌∙◌, ◌∷◌,
  ◌≡◌, ◌≢◌,
}
use optimer.Text.{Text}
use optimer.Lint.Expression.Loop.{IsBalanced, close_loop-IsBalanced, close_loop-found}
use optimer.Lint.Expression.{
  Pointer, close_expression, close_from, close_with, closing, code_at, count_code,
  find_end_of_expression_in_line,
}
use optimer.Lint.Cleanse.{CleansedLines, line_at}
use optimer.Lint.Expression.Scan.{IsFirstZero, end_from-bracket, open_after_line}

closing_ne : (c : ℕ) {e : ℕ} → closing c ≡ some e → c ≢ e
unfolding closing
closing_ne c h = ground arith

drop_at_bracket :
    (s : Text) (i : ℕ) {e : ℕ}
    → closing (code_at s i) ≡ some e
    → drop i s ≡ code_at s i ∷ drop (suc i) s
unfolding closing
drop_at_bracket [] i h = ground arith
drop_at_bracket (c ∷ s) zero h = refl
drop_at_bracket (c ∷ s) (suc i) h = drop_at_bracket s i h

module _ (clean : CleansedLines) (linenum position : ℕ) where
  abbrev line : Text
  line = line_at clean.elided linenum

  abbrev startchar : ℕ
  startchar = code_at line position

  abbrev tail : Text
  tail = drop position line

  close_from-found :
      (e : ℕ) (o : Option ℕ)
      → closing startchar ≡ some e
      → find_end_of_expression_in_line line position 0 0 startchar e ≡ o
      → (close_from clean linenum position line startchar e o).position ≡ none
      → (close_from clean linenum position line startchar e o).linenum ≡ clean.num_lines
  unfolding close_from find_end_of_expression_in_line
  close_from-found e (some end) c f h = cc
  close_from-found e none c f h =
      let at = drop_at_bracket line position c in
      let open_depth : count_code e tail < count_code startchar tail =
        rw at (open_after_line startchar e (closing_ne startchar c) position _ (rw at at f)) in
      close_loop-found startchar e (closing_ne startchar c) clean.num_lines
        (count_code startchar tail) (count_code e tail) linenum line
        (drop (linenum + 1) clean.elided) open_depth h

  close_with-found :
      (o : Option ℕ)
      → closing startchar ≡ o
      → (close_with clean linenum position line startchar o).position ≡ none
      → (close_with clean linenum position line startchar o).linenum ≡ clean.num_lines
  unfolding close_with
  close_with-found none c h = refl
  close_with-found (some e) c h = close_from-found e _ c refl h

  -- If there is no position, the line number is the number of lines: a line of the file is never
  -- returned without a position on it.
  pub close_expression-found :
      (close_expression clean linenum position).position ≡ none
      → (close_expression clean linenum position).linenum ≡ clean.num_lines
  unfolding close_expression
  close_expression-found h = close_with-found (closing startchar) refl h

  -- Position `p` of the line that `r` names is past the bracket that closes the one at `position`:
  -- on the same line, it is the first behind it up to which as many are closed as opened. On a later
  -- line, the lines before it leave brackets open, and it is the first such position of its line.
  pub data IsClosing (endchar : ℕ) (r : Pointer) (p : ℕ) : Type 0 where
    same_line :
        (k : ℕ)
        → r.linenum ≡ linenum
        → r.line ≡ line
        → p ≡ position + k
        → IsFirstZero startchar endchar 0 0 tail k
        → IsClosing endchar r p
    later_line :
        IsBalanced startchar endchar
          (count_code startchar tail)
          (count_code endchar tail)
          linenum
          (drop (linenum + 1) clean.elided)
          r
          p
        → IsClosing endchar r p

  close_from-IsClosing :
      (e : ℕ) (o : Option ℕ) (p : ℕ)
      → closing startchar ≡ some e
      → find_end_of_expression_in_line line position 0 0 startchar e ≡ o
      → (close_from clean linenum position line startchar e o).position ≡ some p
      → IsClosing e (close_from clean linenum position line startchar e o) p
  unfolding close_from find_end_of_expression_in_line
  close_from-IsClosing e (some end) p c f h =
      let at = drop_at_bracket line position c in
      let (k, past, b) =
        end_from-bracket startchar e (closing_ne startchar c) position _ end (rw at at f) in
      same_line k refl refl (some_injective (sym h) ∙ past) (rw at b)
  close_from-IsClosing e none p c f h =
      let at = drop_at_bracket line position c in
      let open_depth : count_code e tail < count_code startchar tail =
        rw at (open_after_line startchar e (closing_ne startchar c) position _ (rw at at f)) in
      later_line (
        close_loop-IsBalanced startchar e (closing_ne startchar c) clean.num_lines
          (count_code startchar tail) (count_code e tail) linenum line
          (drop (linenum + 1) clean.elided) p open_depth h)

  close_with-IsClosing :
      (o : Option ℕ) (p : ℕ)
      → closing startchar ≡ o
      → (close_with clean linenum position line startchar o).position ≡ some p
      → (e : ℕ) × (closing startchar ≡ some e)
        × IsClosing e (close_with clean linenum position line startchar o) p
  unfolding close_with
  close_with-IsClosing none p c h = cc
  close_with-IsClosing (some e) p c h = (e, c, close_from-IsClosing e _ p c refl h)

  -- If there is a position, the code at the start is an opening bracket, and the position is past
  -- the bracket that closes it: the first behind it up to which as many are closed as opened, on its
  -- line, or on a later line that follows lines which leave brackets open.
  pub close_expression-IsClosing :
      (p : ℕ)
      → (close_expression clean linenum position).position ≡ some p
      → (e : ℕ) × (closing startchar ≡ some e)
        × IsClosing e (close_expression clean linenum position) p
  unfolding close_expression
  close_expression-IsClosing p h = close_with-IsClosing (closing startchar) p refl h
