-- ===== src/Tests/Language.antt =====
-- The checks of a line in tools/cpplint.py on small lines.
use optimer.Prelude.{List, [], length, refl, ◌∷◌, ◌≡◌}
use optimer.Text.{Text, codes}
use optimer.Lint.Event.{Event, error, suppress}
use optimer.Lint.Cleanse.{CleansedLines}
use optimer.Lint.Nesting.{empty_nesting}
use optimer.Lint.Spacing.{check_spacing}
use optimer.Lint.Macros.{check_alt_tokens, check_check}
use optimer.Lint.Language.{language_events}
use optimer.Lint.Standard.{check_for_non_standard_constructs}

-- the categories that a check reports
categories_of : List Event → List Text
categories_of [] = []
categories_of (error r ∷ es) = r.category ∷ categories_of es
categories_of (suppress c l ∷ es) = categories_of es

abbrev file_of : List Text → CleansedLines
file_of ls = record { elided = ls; lines = ls; raw_lines = ls; num_lines = length ls }

abbrev language_of : Text → List Text
language_of l = categories_of (language_events (codes "a.cc") (codes "cc") (file_of (l ∷ [])) 0)

cast_found : language_of (codes "  x = (int)y;") ≡ codes "readability/casting" ∷ []
unfolding language_events categories_of
cast_found = refl

sprintf_found : language_of (codes "  sprintf(buf, x);") ≡ codes "runtime/printf" ∷ []
unfolding language_events categories_of
sprintf_found = refl

printf_found : language_of (codes "  printf(format);") ≡ codes "runtime/printf" ∷ []
unfolding language_events categories_of
printf_found = refl

array_found : language_of (codes "  int a[n * 2];") ≡ codes "runtime/arrays" ∷ []
unfolding language_events categories_of
array_found = refl

array_constant : language_of (codes "  int a[kSize * sizeof x + 2];") ≡ []
unfolding language_events categories_of
array_constant = refl

reference_found : language_of (codes "void f(string& s);") ≡ codes "runtime/references" ∷ []
unfolding language_events categories_of
reference_found = refl

reference_allowed : language_of (codes "void f(const string& s);") ≡ []
unfolding language_events categories_of
reference_allowed = refl

init_found : language_of (codes "  : size_(size_) {") ≡ codes "runtime/init" ∷ []
unfolding language_events categories_of
init_found = refl

abbrev spacing_of : Text → List Text
spacing_of l = categories_of (check_spacing (codes "a.cc") (file_of ([] ∷ l ∷ [])) 1 empty_nesting)

spacing_found :
    spacing_of (codes "  if(a==b){ f( c,d) ;")
    ≡ codes "whitespace/operators"
      ∷ codes "whitespace/parens"
      ∷ codes "whitespace/comma"
      ∷ codes "whitespace/braces"
      ∷ codes "whitespace/semicolon"
      ∷ []
unfolding check_spacing categories_of
spacing_found = refl

spacing_quiet : spacing_of (codes "  if (a == b) f(c, d);  // done") ≡ []
unfolding check_spacing categories_of
spacing_quiet = refl

check_found :
    categories_of (check_check (codes "a.cc") (file_of (codes "  CHECK(x == 42);" ∷ [])) 0)
    ≡ codes "readability/check" ∷ []
unfolding check_check categories_of
check_found = refl

token_found :
    categories_of (check_alt_tokens (codes "a.cc") (file_of (codes "  if (a and not b)" ∷ [])) 0)
    ≡ codes "readability/alt_tokens" ∷ codes "readability/alt_tokens" ∷ []
unfolding check_alt_tokens categories_of
token_found = refl

storage_found :
    categories_of (
      check_for_non_standard_constructs
        (codes "a.cc")
        (file_of (codes "const static int a;" ∷ []))
        0
        empty_nesting)
    ≡ codes "build/storage_class" ∷ []
unfolding check_for_non_standard_constructs categories_of
storage_found = refl
