-- ===== src/Lint/HeaderGuard.antt =====
-- `CheckForHeaderGuard` of tools/cpplint.py, for the name that the guard should have.
pub mod Guarded
use optimer.Prelude.{
  Bool, List, Option, [], false, if◌then◌else◌, none, some, true, ℕ, ◌&&◌, ◌++◌, ◌+◌, ◌∷◌,
}
use optimer.Text.Unicode.{unicode_words}
use optimer.Text.{Text, codes, starts_with, text_eq}
use optimer.Lint.Event.{Event, parse_nolint_suppressions, report}
use optimer.Lint.Cleanse.{line_at}

-- what the loop over the lines keeps; `none` is None
pub record GuardLines : Type 0 where
  pub ifndef : Option Text
  pub ifndef_linenum : ℕ
  pub define : Option Text
  pub endif : Option Text
  pub endif_linenum : ℕ

abbrev pub no_guard : GuardLines
no_guard = record {
  ifndef = none;
  ifndef_linenum = 0;
  define = none;
  endif = none;
  endif_linenum = 0;
}

-- `not ifndef`: the words of a line are not empty
abbrev is_unset : Option Text → Bool
is_unset none = true
is_unset (some t) = false

see_words : ℕ → List Text → GuardLines → GuardLines
unfolding text_eq
see_words linenum (w ∷ v ∷ ws) g =
    let first = is_unset g.ifndef && text_eq w (codes "#ifndef") in
    record g {
      ifndef = if first then some v else g.ifndef;
      ifndef_linenum = if first then linenum else g.ifndef_linenum;
      define = if is_unset g.define && text_eq w (codes "#define") then some v else g.define;
    }
see_words linenum _ g = g

see_endif : ℕ → Text → GuardLines → GuardLines
unfolding starts_with
see_endif linenum line g =
    if starts_with line (codes "#endif")
    then record g { endif = some line; endif_linenum = linenum }
    else g

unfoldable pub guard_lines : ℕ → List Text → GuardLines → GuardLines
unfolding see_words see_endif unicode_words
guard_lines linenum [] g = g
guard_lines linenum (line ∷ lines) g =
    guard_lines (linenum + 1) lines
      (see_endif linenum line (see_words linenum (unicode_words line) g))

abbrev pub is_text : Text → Option Text → Bool
is_text t none = false
is_text t (some s) = text_eq s t

guard_error : Text → ℕ → ℕ → Text → Event
guard_error filename linenum level message =
    report filename linenum (codes "build/header_guard") level message

endif_line : Text → Text
endif_line cppvar = codes "#endif  // " ++ cppvar

check_ifndef : Text → List Text → Text → GuardLines → Text → List Event
unfolding text_eq guard_error
check_ifndef filename lines cppvar g ifndef =
    if text_eq ifndef cppvar
    then []
    else parse_nolint_suppressions filename (line_at lines g.ifndef_linenum) g.ifndef_linenum
      ++ guard_error filename g.ifndef_linenum
          (if text_eq ifndef (cppvar ++ codes "_") then 0 else 5)
          (codes "#ifndef header guard has wrong style, please use: " ++ cppvar)
        ∷ []

check_endif : Text → List Text → Text → GuardLines → List Event
unfolding guard_error endif_line
check_endif filename lines cppvar g =
    if is_text (endif_line cppvar) g.endif
    then []
    else parse_nolint_suppressions filename (line_at lines g.endif_linenum) g.endif_linenum
      ++ guard_error filename g.endif_linenum
          (if is_text (endif_line (cppvar ++ codes "_")) g.endif then 0 else 5)
          (codes "#endif line should be \"#endif  // " ++ cppvar ++ codes "\"")
        ∷ []

check_guard : Text → List Text → Text → GuardLines → Option Text → Option Text → List Event
unfolding check_ifndef check_endif guard_error text_eq
check_guard filename lines cppvar g none define =
    guard_error filename 0 5
      (codes "No #ifndef header guard found, suggested CPP variable is: " ++ cppvar)
    ∷ []
check_guard filename lines cppvar g (some ifndef) none =
    guard_error filename 0 5
      (codes "No #define header guard found, suggested CPP variable is: " ++ cppvar)
    ∷ []
check_guard filename lines cppvar g (some ifndef) (some define) =
    check_ifndef filename lines cppvar g ifndef
    ++ (if text_eq define ifndef
        then check_endif filename lines cppvar g
        else guard_error filename 0 5
            (codes "#ifndef and #define don't match, suggested CPP variable is: " ++ cppvar)
          ∷ [])

unfoldable pub check_for_header_guard : Text → List Text → Text → List Event
unfolding guard_lines check_guard
check_for_header_guard filename lines cppvar =
    let g = guard_lines 0 lines no_guard in check_guard filename lines cppvar g g.ifndef g.define
