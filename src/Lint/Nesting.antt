-- ===== src/Lint/Nesting.antt =====
-- `_BlockInfo`, `_ClassInfo`, `_NamespaceInfo` and `_NestingState` of tools/cpplint.py: the stack of
-- open blocks. Its top stands first. A number that can fall below 0 is two counters.
pub mod Update
pub mod Preprocessor
pub mod Braces
use mathlib.Core.List.{reverse}
use optimer.Prelude.{
  Bool, List, Option, [], drop, false, if◌then◌else◌, ltb, none, not, some, true, ℕ, ◌&&◌, ◌++◌,
  ◌+◌, ◌==◌, ◌||◌, ◌∷◌,
}
use optimer.Text.{Text, codes, is_empty, is_space, text_eq}
use optimer.Regex.{
  Regex, alt, any_code, bol, boundary, cat, cls, eol, found, group, lit, matches, one, one_of, plus,
  seq, spaces, star, str, words_of,
}
use optimer.Lint.Event.{Event, report}
use optimer.Lint.Cleanse.{CleansedLines, line_at}
use optimer.Lint.Expression.{count_code}

pub data AsmState : Type 0 where
  no_asm : AsmState
  inside_asm : AsmState
  end_asm : AsmState
  block_asm : AsmState

-- what a subclass of `_BlockInfo` adds
pub data Kind : Type 0 where
  plain : Kind
  namespace_info : Text → ℕ → Kind
  class_info : Text → ℕ → Bool → Text → ℕ → Kind

-- open_parentheses is `opened` less `closed`.
pub record BlockInfo : Type 0 where
  pub seen_open_brace : Bool
  pub opened : ℕ
  pub closed : ℕ
  pub inline_asm : AsmState
  pub kind : Kind

abbrev pub new_block : Bool → Kind → BlockInfo
new_block seen kind = record {
  seen_open_brace = seen;
  opened = 0;
  closed = 0;
  inline_asm = no_asm;
  kind = kind;
}

-- The first line from `i` on at which the braces are balanced, or 0.
last_line_from : ℕ → ℕ → ℕ → List Text → ℕ
unfolding count_code
last_line_from i opens closes [] = 0
last_line_from i opens closes (line ∷ lines) =
    let opens' = opens + count_code b'{' line in
    let closes' = closes + count_code b'}' line in
    let later = last_line_from (i + 1) opens' closes' lines in
    if opens' == closes' then i else later

-- `_ClassInfo(name, class_or_struct, clean_lines, linenum)`
unfoldable pub new_class : Text → Text → CleansedLines → ℕ → BlockInfo
unfolding last_line_from text_eq
new_class name class_or_struct clean linenum = new_block false (
    class_info name linenum false
      (if text_eq class_or_struct (codes "struct") then codes "public" else codes "private")
      (last_line_from linenum 0 0 (drop linenum clean.elided)))

-- (^|[^:]):($|[^:])
re_bare_colon : Regex
re_bare_colon =
    cat (alt bol (cls λ c. not (c == b':')) ∷ one b':' ∷ alt eol (cls λ c. not (c == b':')) ∷ [])

begin_kind : Bool → Kind → Kind
begin_kind true (class_info name start derived access end) = class_info name start true access end
begin_kind _ k = k

-- `CheckBegin`: a class finds out whether it is derived.
unfoldable pub check_begin : Text → BlockInfo → BlockInfo
unfolding re_bare_colon found begin_kind
check_begin line b = record b { kind = begin_kind (found re_bare_colon line) b.kind }

-- };*\s*(//|/\*).*\bnamespace
re_namespace_end : Regex
re_namespace_end = cat (
    one b'}'
    ∷ star (one b';')
    ∷ spaces
    ∷ alt (str "//") (str "/*")
    ∷ star any_code
    ∷ boundary
    ∷ str "namespace"
    ∷ [])

-- [\*/\.\\\s]*$
re_tail : Regex
re_tail = seq (star (cls λ c. one_of (codes "*/.\\") c || is_space c)) eol

namespace_report : Text → ℕ → Text → Event
namespace_report filename linenum rest =
    report filename linenum (codes "readability/namespace") 5
      (codes "Namespace should be terminated with \"// namespace" ++ rest ++ codes "\"")

-- `CheckEnd`: the comment at the end of a namespace.
check_end_kind : Text → Text → ℕ → Kind → List Event
unfolding re_namespace_end re_tail matches namespace_report
check_end_kind filename line linenum (namespace_info name start) =
    if ltb linenum (start + 10) && not (matches (seq re_namespace_end boundary) line)
    then []
    else if not (is_empty name)
    then (if matches (cat (re_namespace_end ∷ plus (cls is_space) ∷ lit name ∷ re_tail ∷ [])) line
        then []
        else namespace_report filename linenum (b' ' ∷ name) ∷ [])
    else if matches (seq re_namespace_end re_tail) line
    then []
    else namespace_report filename linenum [] ∷ []
check_end_kind filename line linenum _ = []

unfoldable pub check_end : Text → CleansedLines → ℕ → BlockInfo → List Event
unfolding check_end_kind
check_end filename clean linenum b =
    check_end_kind filename (line_at clean.raw_lines linenum) linenum b.kind

pub record PreprocessorInfo : Type 0 where
  pub stack_before_if : List BlockInfo
  pub stack_before_else : List BlockInfo
  pub seen_else : Bool

pub record NestingState : Type 0 where
  pub stack : List BlockInfo
  pub pp_stack : List PreprocessorInfo

abbrev pub empty_nesting : NestingState
empty_nesting = record { stack = []; pp_stack = [] }

unfoldable pub top_seen : List BlockInfo → Bool
top_seen [] = true
top_seen (b ∷ bs) = b.seen_open_brace

unfoldable pub seen_open_brace_of : NestingState → Bool
unfolding top_seen
seen_open_brace_of s = top_seen s.stack

abbrev pub is_namespace : Kind → Bool
is_namespace (namespace_info name start) = true
is_namespace _ = false

abbrev pub is_class : Kind → Bool
is_class (class_info name start derived access end) = true
is_class _ = false

abbrev top_is : (Kind → Bool) → List BlockInfo → Bool
top_is p [] = false
top_is p (b ∷ bs) = p b.kind

unfoldable pub in_namespace_body : NestingState → Bool
in_namespace_body s = top_is is_namespace s.stack

pub data Directive : Type 0 where
  if_directive : Directive
  else_directive : Directive
  endif_directive : Directive
  no_directive : Directive

-- ^\s*#\s*(...)\b
re_directive : List Text → Regex
re_directive names =
    cat (bol ∷ spaces ∷ one b'#' ∷ spaces ∷ group 1 (words_of names) ∷ boundary ∷ [])

unfoldable pub directive_of : Text → Directive
unfolding re_directive matches
directive_of line =
    if matches (re_directive (codes "if" ∷ codes "ifdef" ∷ codes "ifndef" ∷ [])) line
    then if_directive
    else if matches (re_directive (codes "else" ∷ codes "elif" ∷ [])) line
    then else_directive
    else if matches (re_directive (codes "endif" ∷ [])) line
    then endif_directive
    else no_directive

enter_else : NestingState → List PreprocessorInfo → NestingState
enter_else s [] = s
enter_else s (p ∷ ps) = record {
  stack = p.stack_before_if;
  pp_stack =
      (if p.seen_else then p else record p { seen_else = true; stack_before_else = s.stack }) ∷ ps;
}

leave_if : NestingState → List PreprocessorInfo → NestingState
leave_if s [] = s
leave_if s (p ∷ ps) = record {
  stack = if p.seen_else then p.stack_before_else else s.stack;
  pp_stack = ps;
}

unfoldable pub apply_directive : Directive → NestingState → NestingState
unfolding enter_else leave_if
apply_directive if_directive s = record s {
  pp_stack =
      record { stack_before_if = s.stack; stack_before_else = []; seen_else = false } ∷ s.pp_stack;
}
apply_directive else_directive s = enter_else s s.pp_stack
apply_directive endif_directive s = leave_if s s.pp_stack
apply_directive no_directive s = s

unfoldable pub update_preprocessor : Text → NestingState → NestingState
unfolding directive_of
update_preprocessor line s = apply_directive (directive_of line) s

innermost : List BlockInfo → Option BlockInfo
innermost [] = none
innermost (b ∷ bs) = let outer = innermost bs in if is_class b.kind then some b else outer

unfoldable pub innermost_class : NestingState → Option BlockInfo
unfolding innermost
innermost_class s = innermost s.stack

class_report : Text → Kind → List Event
class_report filename (class_info name start derived access end) =
    report filename start (codes "build/class") 5
      (codes "Failed to find complete declaration of class " ++ name)
    ∷ []
class_report filename _ = []

finished_from : Text → List BlockInfo → List Event
unfolding class_report
finished_from filename [] = []
finished_from filename (b ∷ bs) = class_report filename b.kind ++ finished_from filename bs

-- from the bottom of the stack
unfoldable pub check_class_finished : Text → NestingState → List Event
unfolding finished_from
check_class_finished filename s = finished_from filename (reverse s.stack)
