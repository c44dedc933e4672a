-- ===== src/Lint/Expression.antt =====
-- `FindEndOfExpressionInLine` and `CloseExpression` of tools/cpplint.py. The nesting depth is an
-- integer there. Here it is the difference of two counters, `opens` and `closes`, so that no
-- subtraction is cut off: the depth is 0 where they are equal.
pub mod Close
pub mod Loop
pub mod Scan
use optimer.Prelude.{
  List, Option, [], drop, if◌then◌else◌, leb, none, not, some, suc, zero, ℕ, ◌&&◌, ◌+◌, ◌==◌, ◌∷◌,
}
use optimer.Text.{Text}
use optimer.Lint.Cleanse.{CleansedLines, line_at}

-- The loop from position `i`, where `s` is the rest of the line. `none` is -1.
pub end_from : ℕ → ℕ → ℕ → ℕ → ℕ → Text → Option ℕ
end_from startchar endchar i opens closes [] = none
end_from startchar endchar i opens closes (c ∷ s) =
    let opens' = if c == startchar then opens + 1 else opens in
    let is_close = not (c == startchar) && c == endchar in
    let closes' = if is_close then closes + 1 else closes in
    let rest = end_from startchar endchar (i + 1) opens' closes' s in
    if is_close && opens' == closes' then some (i + 1) else rest

unfoldable pub find_end_of_expression_in_line : Text → ℕ → ℕ → ℕ → ℕ → ℕ → Option ℕ
unfolding end_from
find_end_of_expression_in_line line startpos opens closes startchar endchar =
    end_from startchar endchar startpos opens closes (drop startpos line)

-- line.count(c), for one code
unfoldable pub count_code : ℕ → Text → ℕ
count_code c [] = 0
count_code c (x ∷ s) = (if x == c then 1 else 0) + count_code c s

-- the code that closes ( or [ or {
unfoldable pub closing : ℕ → Option ℕ
closing c =
    if c == b'('
    then some b')'
    else if c == b'['
    then some b']'
    else if c == b'{'
    then some b'}'
    else none

-- The pointer past the closing brace; `none` is the position -1.
pub record Pointer : Type 0 where
  pub line : Text
  pub linenum : ℕ
  pub position : Option ℕ

-- The loop over the lines that follow `line`, which has the number `linenum`.
pub close_loop : ℕ → ℕ → ℕ → ℕ → ℕ → ℕ → Text → List Text → Pointer
unfolding count_code
close_loop num_lines startchar endchar opens closes linenum line [] = record {
  line = line;
  linenum = num_lines;
  position = none;
}
close_loop num_lines startchar endchar opens closes linenum line (next ∷ rest) =
    let opens' = opens + count_code startchar next in
    let closes' = closes + count_code endchar next in
    let later = close_loop num_lines startchar endchar opens' closes' (linenum + 1) next rest in
    if leb opens' closes'
    then record {
      line = next;
      linenum = linenum + 1;
      position = find_end_of_expression_in_line next 0 opens closes startchar endchar;
    }
    else later

-- after the scan of the first line
close_from : CleansedLines → ℕ → ℕ → Text → ℕ → ℕ → Option ℕ → Pointer
unfolding close_loop
close_from clean linenum position line startchar endchar (some end) = record {
  line = line;
  linenum = linenum;
  position = some end;
}
close_from clean linenum position line startchar endchar none =
    let tail = drop position line in
    close_loop clean.num_lines startchar endchar (count_code startchar tail)
      (count_code endchar tail) linenum line (drop (linenum + 1) clean.elided)

close_with : CleansedLines → ℕ → ℕ → Text → ℕ → Option ℕ → Pointer
unfolding close_from
close_with clean linenum position line startchar none = record {
  line = line;
  linenum = clean.num_lines;
  position = none;
}
close_with clean linenum position line startchar (some endchar) =
    close_from clean linenum position line startchar endchar
      (find_end_of_expression_in_line line position 0 0 startchar endchar)

-- line[position], for a position of the line
abbrev pub code_at : Text → ℕ → ℕ
code_at [] i = 0
code_at (c ∷ s) zero = c
code_at (c ∷ s) (suc i) = code_at s i

unfoldable pub close_expression : CleansedLines → ℕ → ℕ → Pointer
unfolding close_with closing
close_expression clean linenum position =
    let line = line_at clean.elided linenum in
    close_with clean linenum position line (code_at line position) (closing (code_at line position))
