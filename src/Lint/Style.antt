-- ===== src/Lint/Style.antt =====
-- `GetLineWidth` and `CheckStyle` of tools/cpplint.py. The lines of a file are unicode strings; what
-- `unicodedata` says of a code is a parameter.
use mathlib.Core.List.{reverse}
pub mod Width
use optimer.Text.Unicode.{is_unicode_space}
use optimer.Prelude.{
  Bool, List, Option, [], false, if◌then◌else◌, ltb, none, not, some, suc, true, ℕ, ◌&&◌, ◌++◌, ◌+◌,
  ◌==◌, ◌||◌, ◌∷◌,
}
use optimer.Text.{Text, codes, contains, count, is_digit, is_space, starts_with}
use optimer.Regex.{
  Regex, any_code, bol, cat, cls, eol, found, group, matches, none_of, one, opt, plus, spaces, star,
  str, word,
}
use optimer.Lint.Event.{Event, all_calls, complain}
use optimer.Lint.Cleanse.{CleansedLines, line_at}
use optimer.Lint.Lines.{check_access, get_previous_non_blank_line}
use optimer.Lint.Nesting.{BlockInfo, NestingState, class_info, innermost_class}
use optimer.Lint.BraceStyle.{check_braces, check_empty_loop_body, previous_line}
use optimer.Lint.Spacing.{check_spacing}
use optimer.Lint.Macros.{check_alt_tokens, check_check}
use optimer.Lint.Sections.{check_section_spacing}

-- `unicodedata`: normalize('NFC', s), whether the width of a code is 'W' or 'F', combining(c)
pub record UnicodeData : Type 0 where
  pub normalize : Text → Text
  pub is_wide : ℕ → Bool
  pub is_combining : ℕ → Bool

unfoldable pub width_of : UnicodeData → Text → ℕ
width_of unicode [] = 0
width_of unicode (c ∷ s) =
    (if unicode.is_wide c then 2 else if unicode.is_combining c then 0 else 1) + width_of unicode s

unfoldable pub get_line_width : UnicodeData → Text → ℕ
unfolding width_of
get_line_width unicode line = width_of unicode (unicode.normalize line)

-- the number of spaces at the start
unfoldable pub initial_spaces : Text → ℕ
initial_spaces [] = 0
initial_spaces (c ∷ s) = let more = initial_spaces s in if c == b' ' then suc more else 0

-- line and line[-1].isspace()
abbrev ends_in_space : Text → Bool
ends_in_space [] = false
ends_in_space (c ∷ s) = is_unicode_space c

-- \s*\w+\s*:\s*$
abbrev re_label : Regex
re_label = cat (spaces ∷ plus word ∷ spaces ∷ one b':' ∷ spaces ∷ eol ∷ [])

-- [^:]:\s*$
abbrev re_colon_end : Regex
re_colon_end = cat (cls (none_of (codes ":")) ∷ one b':' ∷ spaces ∷ eol ∷ [])

unfoldable pub start_events : Text → ℕ → Text → Text → List Event
unfolding contains matches found starts_with initial_spaces
start_events filename linenum line cleansed_line =
    let spaces_before = initial_spaces line in
    complain filename linenum (contains line (codes "\t")) "whitespace/tab" 1
      (codes "Tab found; better to use spaces")
    ++ (if ends_in_space (reverse line)
        then complain filename linenum true "whitespace/end_of_line" 4
            (codes "Line ends in whitespace.  Consider deleting these extra spaces.")
        else if (spaces_before == 1 || spaces_before == 3) && not (matches re_label cleansed_line)
        then complain filename linenum true "whitespace/indent" 3
            (codes "Weird number of spaces at line-start.  Are you using a 2-space indent?")
        else complain filename linenum
            (spaces_before == 0 && (not (starts_with line (codes "//")) && found re_colon_end line))
            "whitespace/labels" 4
            (codes
              "Labels should always be indented at least one space.  If this is a member-initializer list in a constructor or the base class list in a class definition, the colon should be on the following line."))

-- a line of the header guard, for the variable of a header
unfoldable pub is_header_guard : Option Text → Text → Bool
unfolding starts_with
is_header_guard none line = false
is_header_guard (some cppvar) line =
    starts_with line (codes "#ifndef " ++ cppvar)
    || (starts_with line (codes "#define " ++ cppvar)
        || starts_with line (codes "#endif  // " ++ cppvar))

-- ^\s*//.*http(s?)://\S*$
abbrev re_url : Regex
re_url = cat (
    bol
    ∷ spaces
    ∷ str "//"
    ∷ star any_code
    ∷ str "http"
    ∷ group 1 (opt (one b's'))
    ∷ str "://"
    ∷ star (cls (λ c. not (is_space c)))
    ∷ eol
    ∷ [])

-- ^// \$Id:.*#[0-9]+ \$$
abbrev re_id : Regex
re_id = cat (
    bol
    ∷ str "// $Id:"
    ∷ star any_code
    ∷ one b'#'
    ∷ plus (cls (λ c. is_digit c))
    ∷ str " $"
    ∷ eol
    ∷ [])

-- a line that may be long
unfoldable pub may_be_long : Option Text → Text → Bool
unfolding starts_with is_header_guard matches
may_be_long cppvar line =
    starts_with line (codes "#include")
    || (is_header_guard cppvar line || (matches re_url line || matches re_id line))

unfoldable pub length_events : UnicodeData → Text → ℕ → Option Text → Text → List Event
unfolding may_be_long get_line_width
length_events unicode filename linenum cppvar line =
    let line_width = get_line_width unicode line in
    if may_be_long cppvar line
    then []
    else if ltb 100 line_width
    then complain filename linenum true "whitespace/line_length" 4
        (codes "Lines should very rarely be longer than 100 characters")
    else complain filename linenum (ltb 80 line_width) "whitespace/line_length" 2
        (codes "Lines should be <= 80 characters long")

several_commands : Text → Text → Bool
unfolding count contains
several_commands cleansed_line prevline =
    ltb 1 (count cleansed_line (codes ";"))
    && (not (contains cleansed_line (codes "for"))
        && ((not (contains prevline (codes "for")) || contains prevline (codes ";"))
            && not (
                (contains cleansed_line (codes "case ")
                  || contains cleansed_line (codes "default:"))
                && contains cleansed_line (codes "break;"))))

class_section_events : Text → CleansedLines → ℕ → Option BlockInfo → List Event
unfolding check_section_spacing
class_section_events filename clean linenum none = []
class_section_events filename clean linenum (some b) = elim b.kind [
  | class_info name start derived access end ↦
      check_section_spacing filename clean start end linenum
  | _ ↦ []
]

-- `cppvar` is the variable of the header guard, for a file with the extension `h`.
unfoldable pub check_style :
    UnicodeData → Text → CleansedLines → ℕ → Option Text → NestingState → Option (List Event)
unfolding start_events length_events several_commands class_section_events innermost_class
    previous_line get_previous_non_blank_line check_braces check_empty_loop_body check_access
    check_spacing check_check check_alt_tokens
check_style unicode filename clean linenum cppvar nesting =
    let line = line_at clean.raw_lines linenum in
    let cleansed_line = line_at clean.elided linenum in
    let prevline = previous_line (get_previous_non_blank_line clean linenum) in
    all_calls (
      some (start_events filename linenum line cleansed_line)
      ∷ some (length_events unicode filename linenum cppvar line)
      ∷ some (
          complain filename linenum (several_commands cleansed_line prevline) "whitespace/newline" 0
            (codes "More than one command on the same line"))
      ∷ check_braces filename clean linenum
      ∷ some (check_empty_loop_body filename clean linenum)
      ∷ some (check_access filename clean linenum nesting)
      ∷ some (check_spacing filename clean linenum nesting)
      ∷ some (check_check filename clean linenum)
      ∷ some (check_alt_tokens filename clean linenum)
      ∷ some (class_section_events filename clean linenum (innermost_class nesting))
      ∷ [])
