-- ===== src/Lint/Sections.antt =====
-- `CheckSectionSpacing` of tools/cpplint.py.
use optimer.Prelude.{
  List, Option, [], if◌then◌else◌, leb, ltb, none, not, some, suc, zero, ℕ, ◌&&◌, ◌++◌, ◌+◌, ◌-◌,
  ◌||◌, ◌∷◌,
}
use optimer.Text.{Text, codes}
use optimer.Regex.{
  Cursor, Regex, boundary, cat, eol, found, group, group_text, one, re_match, spaces, words_of,
}
use optimer.Lint.Event.{Event, complain}
use optimer.Lint.Cleanse.{CleansedLines, line_at}
use optimer.Lint.Lines.{is_blank_line}

-- \s*(public|protected|private):
abbrev re_section : Regex
re_section = cat (
    spaces
    ∷ group 1 (words_of (codes "public" ∷ codes "protected" ∷ codes "private" ∷ []))
    ∷ one b':'
    ∷ [])

-- \b(class|struct)\b
abbrev re_class_or_struct : Regex
re_class_or_struct =
    cat (boundary ∷ group 1 (words_of (codes "class" ∷ codes "struct" ∷ [])) ∷ boundary ∷ [])

-- \\$
abbrev re_continued : Regex
re_continued = cat (one 92 ∷ eol ∷ [])

-- \{\s*$
abbrev re_head_end : Regex
re_head_end = cat (one b'{' ∷ spaces ∷ eol ∷ [])

-- The first of the `left` lines from `i` on that ends in `{`, or `start`.
unfoldable pub end_class_head : List Text → ℕ → ℕ → ℕ → ℕ
unfolding found
end_class_head lines start zero i = start
end_class_head lines start (suc left) i =
    let later = end_class_head lines start left (i + 1) in
    if found re_head_end (line_at lines i) then i else later

section_events : Text → CleansedLines → ℕ → ℕ → Option Cursor → List Event
unfolding found is_blank_line end_class_head group_text
section_events filename clean starting_linenum linenum none = []
section_events filename clean starting_linenum linenum (some m) =
    let prev_line = line_at clean.lines (linenum - 1) in
    let head_end =
      end_class_head clean.lines starting_linenum (linenum - starting_linenum) starting_linenum in
    complain filename linenum
      (not (is_blank_line prev_line)
        && (not (found re_class_or_struct prev_line)
            && (not (found re_continued prev_line) && ltb (head_end + 1) linenum)))
      "whitespace/blank_line" 3
      (34 ∷ group_text 1 m ++ codes ":\" should be preceded by a blank line")

-- for a class that begins and ends at the two lines
unfoldable pub check_section_spacing : Text → CleansedLines → ℕ → ℕ → ℕ → List Event
unfolding section_events re_match
check_section_spacing filename clean starting_linenum last_line linenum =
    if leb last_line (starting_linenum + 24) || leb linenum starting_linenum
    then []
    else section_events filename clean starting_linenum linenum
        (re_match re_section (line_at clean.lines linenum))
