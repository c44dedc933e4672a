-- ===== src/Lint/BraceStyle/Loop.antt =====
-- When the loop of `CheckBraces` in tools/cpplint.py ends.
use optimer.Prelude.{
  List, Option-cases, arith, inl, inr, none, refl, some, suc, true, ℕ, ◌++◌, ◌<◌, ◌↔◌, ◌≡◌,
}
use optimer.Text.{Text}
use optimer.Regex.{matches}
use optimer.Lint.Cleanse.{CleansedLines, line_at}
use optimer.Lint.Lines.{previous_from}
use optimer.Lint.BraceStyle.Rounds.{
  begins_unindented, goes_on-first, join_back-endless, join_back-ends, join_back-enough,
  join_back-never,
}
use optimer.Lint.BraceStyle.{
  brace_end_events, brace_position_events, check_braces, join_back, re_braces_statement,
}
use optimer.Lint.Event.{Event}

pub check_braces-joined :
    (filename : Text) (clean : CleansedLines) (linenum : ℕ) (r : Text)
    → join_back (suc linenum) clean.elided linenum (line_at clean.elided linenum) ≡ some r
    → check_braces filename clean linenum
      ≡ some (brace_position_events filename clean linenum ++ brace_end_events filename linenum r)
unfolding check_braces
check_braces-joined filename clean linenum r e = rw (check_braces, e) refl

-- The check does not end, by its result, exactly when the loop does not end after any number of
-- rounds.
pub check_braces-none_iff :
    (filename : Text) (clean : CleansedLines) (linenum : ℕ)
    → (check_braces filename clean linenum ≡ none)
      ↔ ((rounds : ℕ) → join_back rounds clean.elided linenum (line_at clean.elided linenum) ≡ none)
unfolding check_braces
check_braces-none_iff filename clean linenum =
    let line = line_at clean.elided linenum in
    elim (Option-cases (join_back (suc linenum) clean.elided linenum line)) [
      | inr e ↦ (
        λ h n. join_back-never clean.elided n (suc linenum) linenum line (omega arith) e,
        λ h. rw (check_braces, h (suc linenum)) refl,
      )
      | inl (r, e) ↦
          (λ h. absurd (cc (rw (check_braces, e) at h)), λ h. absurd (cc (h (suc linenum), e)))
    ]

-- Where a line above begins with a code that is no white space of Unicode, the check
-- ends.
pub check_braces_ends :
    (filename : Text) (clean : CleansedLines) (linenum i : ℕ)
    → i < linenum
    → begins_unindented (line_at clean.elided i) ≡ true
    → (events : List Event) × (check_braces filename clean linenum ≡ some events)
check_braces_ends filename clean linenum i lt plain =
    let line = line_at clean.elided linenum in
    let (r, ends) =
      join_back-ends clean.elided i plain (suc linenum) linenum line lt (omega arith) in
    let enough =
      join_back-enough clean.elided (suc (suc linenum)) (suc linenum) linenum line r (omega arith)
        ends in
    (_, check_braces-joined filename clean linenum r enough)

-- Where all lines above are blank, the check of an indented `{...};` does not end.
pub check_braces_endless :
    (filename : Text) (clean : CleansedLines) (linenum : ℕ)
    → previous_from clean.elided linenum ≡ none
    → matches re_braces_statement (line_at clean.elided linenum) ≡ true
    → check_braces filename clean linenum ≡ none
unfolding check_braces
check_braces_endless filename clean linenum top statement =
    let line = line_at clean.elided linenum in
    let endless =
      join_back-endless clean.elided (suc linenum) linenum line top
        (goes_on-first clean.elided linenum line top statement) in
    rw (check_braces, endless) refl
