-- ===== src/Lint/Spacing/Blank.antt =====
-- The blank lines that `CheckSpacing` of tools/cpplint.py looks at.
use optimer.Prelude.{
  Bool, List, Option, [], false, if◌then◌else◌, ltb, none, not, some, suc, take, true, zero, ℕ,
  ◌&&◌, ◌++◌, ◌+◌, ◌-◌, ◌==◌, ◌||◌, ◌∷◌,
}
use optimer.Text.{Text, codes, contains, last_piece, text_eq}
use optimer.Regex.{
  Cursor, Regex, alt, cat, cls, eol, group, group_text, matches, none_of, one, opt, re_match,
  spaces, star, str, word, words_of,
}
use optimer.Lint.Event.{Event, calls, complain}
use optimer.Lint.Cleanse.{CleansedLines, line_at}
use optimer.Lint.Nesting.{NestingState, in_namespace_body}
use optimer.Lint.Lines.{is_blank_line}

-- s[s.rfind(c):], if the code is there
unfoldable pub from_last : ℕ → Text → Option Text
from_last c [] = none
from_last c (x ∷ s) = elim (from_last c s) [
  | some t ↦ some t
  | none ↦ if x == c then some (x ∷ s) else none
]

-- a `{` with no `}` behind it
unfoldable pub opens_block : Text → Bool
unfolding from_last contains
opens_block line = elim (from_last b'{' line) [
  | none ↦ false
  | some rest ↦ not (contains rest (codes "}"))
]

-- lines[linenum - 1]; for the first line, Python takes the last one
unfoldable pub line_before : List Text → ℕ → Text
line_before lines zero = last_piece lines
line_before lines (suc i) = line_at lines i

--  {6}\w
abbrev re_six_spaces : Regex
re_six_spaces = cat (str "      " ∷ word ∷ [])

--  {4}\w[^\(]*\)\s*(const\s*)?(\{\s*$|:)
abbrev re_header_end : Regex
re_header_end = cat (
    str "    "
    ∷ word
    ∷ star (cls (none_of (codes "(")))
    ∷ one b')'
    ∷ spaces
    ∷ opt (group 1 (cat (str "const" ∷ spaces ∷ [])))
    ∷ group 2 (alt (cat (one b'{' ∷ spaces ∷ eol ∷ [])) (one b':'))
    ∷ [])

--  {4}:
abbrev re_initializers : Regex
re_initializers = cat (str "    " ∷ one b':' ∷ [])

-- Upwards over lines with six spaces, to the line that begins the initializers; `above` lines are
-- left.
initializers_above : List Text → ℕ → Bool
unfolding matches text_eq
initializers_above elided zero = false
initializers_above elided (suc above) =
    let higher = initializers_above elided above in
    let line = line_at elided above in
    if matches re_six_spaces line then higher else text_eq (take 5 line) (codes "    :")

-- the end of a function header, behind which a blank line is let through
unfoldable pub ends_header : List Text → ℕ → Text → Bool
unfolding initializers_above matches
ends_header elided linenum prev_line =
    if matches re_six_spaces prev_line
    then initializers_above elided (linenum - 1)
    else matches re_header_end prev_line || matches re_initializers prev_line

-- \s*}
abbrev re_close : Regex
re_close = cat (spaces ∷ one b'}' ∷ [])

closes_block : Text → Bool
unfolding matches contains
closes_block next_line = matches re_close next_line && not (contains next_line (codes "} else "))

-- \s*(public|protected|private):
abbrev re_access_label : Regex
re_access_label = cat (
    spaces
    ∷ group 1 (words_of (codes "public" ∷ codes "protected" ∷ codes "private" ∷ []))
    ∷ one b':'
    ∷ [])

label_events : Text → ℕ → Option Cursor → List Event
unfolding group_text
label_events filename linenum none = []
label_events filename linenum (some m) =
    complain filename linenum true "whitespace/blank_line" 3
      (codes "Do not leave a blank line after \"" ++ group_text 1 m ++ codes ":\"")

unfoldable pub check_blank_line : Text → CleansedLines → ℕ → NestingState → List Event
unfolding is_blank_line in_namespace_body opens_block ends_header closes_block line_before
    label_events re_match
check_blank_line filename clean linenum nesting =
    let prev_line = line_before clean.elided linenum in
    if is_blank_line (line_at clean.raw_lines linenum) && not (in_namespace_body nesting)
    then calls (
        complain filename linenum
          (opens_block prev_line && not (ends_header clean.elided linenum prev_line))
          "whitespace/blank_line" 2
          (codes "Blank line at the start of a code block.  Is this needed?")
        ∷ complain filename linenum
            (ltb (linenum + 1) clean.num_lines
              && closes_block (line_at clean.raw_lines (linenum + 1)))
            "whitespace/blank_line" 3
            (codes "Blank line at the end of a code block.  Is this needed?")
        ∷ label_events filename linenum (re_match re_access_label prev_line)
        ∷ [])
    else []
