-- ===== src/Lint/Language.antt =====
-- `CheckLanguage` of tools/cpplint.py, with its parts in the modules below.
use mathlib.Core.List.{reverse}
mod Casts
mod Declarations
mod Arrays
mod Calls
unfoldable pub use Casts.*
unfoldable pub use Declarations.*
unfoldable pub use Arrays.*
unfoldable pub use Calls.*
use optimer.Prelude.{
  Bool, List, Option, [], false, if◌then◌else◌, none, not, some, ℕ, ◌&&◌, ◌==◌, ◌||◌, ◌∷◌,
}
use optimer.Text.{Text, codes, is_digit, is_empty, is_lower, is_upper, text_eq}
use optimer.Regex.{Regex, again, boundary, cat, cls, found, group, one, re_match, spaces, star, str}
use optimer.Lint.Event.{Event, calls, complain}
use optimer.Lint.Cleanse.{CleansedLines, line_at, re_include}
use optimer.Lint.Include.{IncludeState}
use optimer.Lint.IncludeLine.{check_include_line, is_test_filename}

-- \bdynamic_cast<
abbrev re_dynamic_cast : Regex
re_dynamic_cast = cat (boundary ∷ str "dynamic_cast<" ∷ [])

-- \b([A-Za-z0-9_]*_)\(\1\)
abbrev re_self_init : Regex
re_self_init = cat (
    boundary
    ∷ group 1 (
        cat (
          star (cls (λ c. is_upper c || (is_lower c || (is_digit c || c == b'_'))))
          ∷ one b'_'
          ∷ []))
    ∷ one b'('
    ∷ again 1
    ∷ one b')'
    ∷ [])

-- \busing namespace\b
abbrev re_using_namespace : Regex
re_using_namespace = cat (boundary ∷ str "using namespace" ∷ boundary ∷ [])

-- \bnamespace\s*{
abbrev re_unnamed_namespace : Regex
re_unnamed_namespace = cat (boundary ∷ str "namespace" ∷ spaces ∷ one b'{' ∷ [])

-- line[-1] == '\\'
abbrev ends_in_backslash : Text → Bool
ends_in_backslash [] = false
ends_in_backslash (c ∷ s) = c == 92

-- the checks of a line that is neither empty nor an include
unfoldable pub language_events : Text → Text → CleansedLines → ℕ → List Event
unfolding found re_match check_references check_conversion cast_checks string_events
    is_test_filename check_basic_types check_calls array_events disallow_events text_eq
language_events filename file_extension clean linenum =
    let line = line_at clean.elided linenum in
    calls (
      check_references filename linenum line
      ∷ check_conversion filename clean linenum line
      ∷ cast_checks filename linenum line (line_at clean.raw_lines linenum)
      ∷ string_events filename linenum (re_match re_string_global line)
      ∷ complain filename linenum (found re_dynamic_cast line && not (is_test_filename filename))
          "runtime/rtti" 5
          (codes
            "Do not use dynamic_cast<>.  If you need to cast within a class hierarchy, use static_cast<> to upcast.  Google doesn't support RTTI.")
      ∷ complain filename linenum (found re_self_init line) "runtime/init" 4
          (codes "You seem to be initializing a member variable with itself.")
      ∷ check_basic_types filename linenum line
      ∷ check_calls filename linenum line
      ∷ complain filename linenum (found re_using_namespace line) "build/namespaces" 5
          (codes "Do not use namespace using-directives.  Use using-declarations instead.")
      ∷ array_events filename linenum (re_match re_array line)
      ∷ disallow_events filename clean linenum (re_match re_disallow_last line)
      ∷ complain filename linenum
          (text_eq file_extension (codes "h")
            && (found re_unnamed_namespace line && not (ends_in_backslash (reverse line))))
          "build/namespaces" 4
          (codes
            "Do not use unnamed namespaces in header files.  See http://google-styleguide.googlecode.com/svn/trunk/cppguide.xml#Namespaces for more information.")
      ∷ [])

-- `repository` is the name of the file in its repository, `none` where the search for it does not
-- end. The first include of a file asks for it.
unfoldable pub check_language :
    Text
    → Text
    → Option Text
    → CleansedLines
    → ℕ
    → IncludeState
    → Option (IncludeState × List Event)
unfolding found check_include_line language_events
check_language filename file_extension repository clean linenum s =
    let line = line_at clean.elided linenum in
    if is_empty line
    then some (s, [])
    else if found re_include line
    then (elim repository [
      | none ↦ none
      | some name ↦ some (check_include_line filename name clean linenum s)
    ])
    else some (s, language_events filename file_extension clean linenum)
