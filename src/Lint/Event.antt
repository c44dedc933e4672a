-- ===== src/Lint/Event.antt =====
-- What a check of tools/cpplint.py does to the outside: it calls the error handler that it is
-- given, and `ParseNolintSuppressions` adds to the suppressions. A check is a list of these calls,
-- in the order in which they are made.
use optimer.Prelude.{
  Bool, List, Option, String, [], drop, false, if◌then◌else◌, length, none, not, refl, some, take,
  true, ℕ, ◌&&◌, ◌++◌, ◌-◌, ◌==◌, ◌↔◌, ◌∷◌, ◌≡◌,
}
use optimer.Text.{Text, codes, ends_with, member, starts_with, text_eq}
use optimer.Regex.{Regex, boundary, cat, cls, group, group_of, one, opt, re_search, star, str}
use optimer.Lint.Category.{error_categories}

pub record Report : Type 0 where
  pub filename : Text
  pub linenum : ℕ
  pub category : Text
  pub confidence : ℕ
  pub message : Text

pub data Event : Type 0 where
  error : Report → Event
  suppress : Option Text → ℕ → Event

-- error(filename, linenum, category, confidence, message)
abbrev pub report : Text → ℕ → Text → ℕ → Text → Event
report filename linenum category confidence message = error (record {
  filename = filename;
  linenum = linenum;
  category = category;
  confidence = confidence;
  message = message;
})

-- error(filename, linenum, category, confidence, message), where the test holds
abbrev pub complain : Text → ℕ → Bool → String → ℕ → Text → List Event
complain filename linenum true category confidence message =
    report filename linenum (codes category) confidence message ∷ []
complain filename linenum false category confidence message = []

pub complain_iff :
    (filename : Text) (linenum : ℕ) (test : Bool) (category : String) (confidence : ℕ)
    (message : Text)
    → (complain filename linenum test category confidence message ≡ []) ↔ (test ≡ false)
complain_iff filename linenum true category confidence message =
    (λ h. absurd (cc h), λ h. absurd (cc h))
complain_iff filename linenum false category confidence message = (λ h. refl, λ h. refl)

-- the calls of several checks, one after the other
abbrev pub calls : List (List Event) → List Event
calls [] = []
calls (es ∷ ess) = es ++ calls ess

-- The calls of checks of which some may not end: `none` is a check that does not end.
abbrev pub all_calls : List (Option (List Event)) → Option (List Event)
all_calls [] = some []
all_calls (none ∷ rest) = none
all_calls (some es ∷ rest) = elim (all_calls rest) [ none ↦ none | some more ↦ some (es ++ more) ]

-- \bNOLINT\b(\([^)]*\))?
re_suppression : Regex
re_suppression = cat (
    boundary
    ∷ str "NOLINT"
    ∷ boundary
    ∷ opt (group 1 (cat (one b'(' ∷ star (cls λ c. not (c == b')')) ∷ one b')' ∷ [])))
    ∷ [])

-- category[1:-1]
abbrev pub inside : Text → Text
inside category = take (length category - 2) (drop 1 category)

nolint_category : Text → ℕ → Option Text → List Event
nolint_category filename linenum none = suppress none linenum ∷ []
nolint_category filename linenum (some category) =
    if text_eq category (codes "(*)")
    then suppress none linenum ∷ []
    else if starts_with category (codes "(") && ends_with category (codes ")")
    then (let name = inside category in
        if member name error_categories
        then suppress (some name) linenum ∷ []
        else report filename linenum (codes "readability/nolint") 5
            (codes "Unknown NOLINT error category: " ++ name)
          ∷ [])
    else []

unfoldable pub parse_nolint_suppressions : Text → Text → ℕ → List Event
unfolding nolint_category re_suppression re_search group_of text_eq starts_with ends_with member
parse_nolint_suppressions filename raw_line linenum = elim (re_search re_suppression raw_line) [
  | none ↦ []
  | some m ↦ nolint_category filename linenum (group_of 1 m.1.groups)
]
