-- ===== src/Lint/Process/Ends.antt =====
-- When the checks of the lines of a file in tools/cpplint.py end.
use optimer.Prelude.{
  Bool-cases, List, Option, Option-cases, false, inl, inr, refl, some, suc, true, zero, ℕ, ◌+◌, ◌<◌,
  ◌≡◌,
}
use optimer.Text.{Text, is_empty}
use optimer.Regex.{found, matches}
use optimer.Lint.Cleanse.{CleansedLines, line_at, re_include}
use optimer.Lint.BraceStyle.{check_braces, goes_on, re_braces_statement}
use optimer.Lint.BraceStyle.Rounds.{begins_unindented, join_back-stops}
use optimer.Lint.BraceStyle.Loop.{check_braces-joined, check_braces_ends}
use optimer.Lint.Nesting.{NestingState}
use optimer.Lint.Style.{check_style}
use optimer.Lint.Include.{IncludeState}
use optimer.Lint.Language.{check_language}
use optimer.Lint.Process.Line.{
  FileState, Source, check_line, in_assembly, language_and_rest, process_line, process_lines,
}
use optimer.Lint.Event.{Event}
use optimer.Lint.Nesting.Update.{update}

abbrev Succeeds : {A : Type 0} → Option A → Type 0
Succeeds {A} o = (a : A) × (o ≡ some a)

-- Each indented statement in braces with a semicolon stands below a line that begins with a code
-- that is no white space of Unicode.
abbrev pub HasLineAbove : CleansedLines → Type 0
HasLineAbove clean =
    (i : ℕ)
    → matches re_braces_statement (line_at clean.elided i) ≡ true
    → (k : ℕ) × (k < i) × (begins_unindented (line_at clean.elided k) ≡ true)

check_braces-Succeeds :
    (filename : Text) (clean : CleansedLines) (linenum : ℕ)
    → HasLineAbove clean
    → Succeeds (check_braces filename clean linenum)
unfolding goes_on
check_braces-Succeeds filename clean linenum above =
    let line = line_at clean.elided linenum in
    elim (Bool-cases (matches re_braces_statement line)) [
      | inl statement ↦
          let (k, below, unindented) = above linenum statement in
          check_braces_ends filename clean linenum k below unindented
      | inr other ↦
          let stops : goes_on clean.elided linenum line ≡ false = rw (goes_on, other) refl in
          (
            _,
            check_braces-joined filename clean linenum line
                (join_back-stops clean.elided linenum linenum line stops),
          )
    ]

module _ (src : Source) (clean : CleansedLines) where
  check_style-Succeeds :
      (linenum : ℕ) (nesting : NestingState)
      → HasLineAbove clean
      → Succeeds (check_style src.unicode src.filename clean linenum src.guard nesting)
  unfolding check_style
  check_style-Succeeds linenum nesting above =
      let (events, e) = check_braces-Succeeds src.filename clean linenum above in
      elim (Option-cases (check_style src.unicode src.filename clean linenum src.guard nesting)) [
        | inl result ↦ result
        | inr endless ↦ absurd (cc (rw (check_style, e) at endless))
      ]

  check_language-Succeeds :
      (name : Text) (line : ℕ) (s : IncludeState)
      → src.repository ≡ some name
      → Succeeds (check_language src.filename src.file_extension src.repository clean line s)
  unfolding check_language
  check_language-Succeeds name line s in_repository =
      let text = line_at clean.elided line in
      let checked = check_language src.filename src.file_extension src.repository clean line s in
      elim (Option-cases checked) [
        | inl result ↦ result
        | inr endless ↦ elim (Bool-cases (is_empty text)) [
          | inl blank ↦ absurd (cc (rw (check_language, blank) at endless))
          | inr code ↦ elim (Bool-cases (found re_include text)) [
            | inl includes ↦
                absurd (cc (rw (check_language, code, includes, in_repository) at endless))
            | inr other ↦ absurd (cc (rw (check_language, code, other) at endless))
          ]
        ]
      ]

  check_line-Succeeds :
      (name : Text) (line : ℕ) (s : FileState)
      → src.repository ≡ some name
      → HasLineAbove clean
      → Succeeds (check_line src clean line s)
  unfolding check_line language_and_rest
  check_line-Succeeds name line s in_repository above =
      let (style, e) = check_style-Succeeds line s.nesting_state above in
      let (language, e') = check_language-Succeeds name line s.include_state in_repository in
      elim (Option-cases (check_line src clean line s)) [
        | inl result ↦ result
        | inr endless ↦ absurd (cc (rw (check_line, e, language_and_rest, e') at endless))
      ]

  process_line-Succeeds :
      (name : Text) (line : ℕ) (s : FileState)
      → src.repository ≡ some name
      → HasLineAbove clean
      → Succeeds (process_line src clean line s)
  unfolding process_line
  process_line-Succeeds name line s in_repository above =
      let (nesting_state, nesting) = update src.filename clean line s.nesting_state in
      let entered = record s { nesting_state = nesting_state } in
      let (checked, e) = check_line-Succeeds name line entered in_repository above in
      elim (Option-cases (process_line src clean line s)) [
        | inl result ↦ result
        | inr endless ↦ elim (Bool-cases (in_assembly nesting_state.stack)) [
          | inl asm ↦ absurd (cc (rw (process_line, asm) at endless))
          | inr code ↦ absurd (cc (rw (process_line, code, e) at endless))
        ]
      ]

  -- The checks of the lines of a file end, from any line and state, where the search for its
  -- repository ends and each indented statement in braces with a semicolon stands below a line that
  -- begins with a code that is no white space of Unicode.
  pub process_lines_ends :
      (name : Text) (left line : ℕ) (s : FileState)
      → src.repository ≡ some name
      → HasLineAbove clean
      → (result : FileState × List Event) × (process_lines src clean left line s ≡ some result)
  unfolding process_lines
  process_lines_ends name zero line s in_repository above = (_, refl)
  process_lines_ends name (suc left) line s in_repository above =
      let (first, e) = process_line-Succeeds name line s in_repository above in
      let (rest, e') = process_lines_ends name left (line + 1) first.0 in_repository above in
      elim (Option-cases (process_lines src clean (suc left) line s)) [
        | inl result ↦ result
        | inr endless ↦ absurd (cc (rw (process_lines, e, e') at endless))
      ]
