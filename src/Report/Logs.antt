-- ===== src/Report/Logs.antt =====
-- `LineParser`, the parsers and `LogData` of tools/pms_report.py.
use optimer.Prelude.{List, Option, String, [], none, some, ℕ, ◌∷◌}
use optimer.Text.{Text, codes, is_digit, is_space, split}
use optimer.Regex.{Regex, cat, cls, group, group_of, one, opt, plus, re_search, spaces, star, str}
use optimer.Report.TaskName.{Dict, insert}

-- Python's numbers, as far as the report uses them: `int`, `float`, `str`, `format`, `+`, and
-- division by a number of runs that is not 0.
pub record Numbers : Type 1 where
  pub Value : Type 0
  pub int_of : Text → Value
  pub float_of : Text → Value
  pub str_of : Value → Text
  pub fixed : ℕ → Value → Text
  pub zero_value : Value
  pub missing : Value
  pub add : Value → Value → Value
  pub divide : Value → ℕ → Value

pub record LineParser (V : Type 0) : Type 0 where
  pub re : Regex
  pub convert_function : Text → V
  pub format_function : V → Text

-- res.groups()[0]
group_value : {V : Type 0} → (Text → V) → Option Text → Option V
group_value convert none = none
group_value convert (some t) = some (convert t)

unfoldable pub parse : {V : Type 0} → LineParser V → Text → Option V
unfolding re_search group_of group_value
parse p line = elim (re_search p.re line) [
  | none ↦ none
  | some m ↦ group_value p.convert_function (group_of 1 m.1.groups)
]

-- (\d+)
digits_group : Regex
digits_group = group 1 (plus (cls is_digit))

-- (\d+\.?\d*)
decimal_group : Regex
decimal_group = group 1 (cat (plus (cls is_digit) ∷ opt (one b'.') ∷ star (cls is_digit) ∷ []))

-- \s*<title>:\s+<group>
titled : String → Regex → Regex
titled title g = cat (spaces ∷ str title ∷ plus (cls is_space) ∷ g ∷ [])

module _ (numbers : Numbers) where
  open numbers use {Value, int_of, float_of, str_of, fixed}

  -- The dict `parsers`, in the order in which the program fills it.
  unfoldable pub parsers : Dict (LineParser Value)
  unfolding titled digits_group decimal_group
  parsers =
      (
        codes "generated sets",
        record {
          re = titled "Generated sets:" digits_group;
          convert_function = int_of;
          format_function = str_of;
        },
      )
      ∷ (
        codes "constrained by record",
        record {
          re = titled "Constrained by record:" digits_group;
          convert_function = int_of;
          format_function = str_of;
        },
      )
      ∷ (
        codes "number of sets",
        record {
          re = titled "# of sets per max time:" decimal_group;
          convert_function = float_of;
          format_function = fixed 2;
        },
      )
      ∷ (
        codes "valuation time",
        record {
          re = cat (str "Valuation Time:" ∷ plus (cls is_space) ∷ decimal_group ∷ []);
          convert_function = float_of;
          format_function = fixed 3;
        },
      )
      ∷ (
        codes "thread time variance",
        record {
          re = titled "Time variance:" decimal_group;
          convert_function = float_of;
          format_function = fixed 5;
        },
      )
      ∷ []

-- the first parser, in the order of the dict, that reads a value from the line
unfoldable pub first_value : {V : Type 0} → Dict (LineParser V) → Text → Option (Text × V)
unfolding parse
first_value [] line = none
first_value ((name, p) ∷ ps) line =
    let later = first_value ps line in
    elim (parse p line) [ some v ↦ some (name, v) | none ↦ later ]

abbrev add_value : {V : Type 0} → Option (Text × V) → Dict V → Dict V
add_value none result = result
add_value (some (name, v)) result = insert name v result

unfoldable pub parse_lines : {V : Type 0} → Dict (LineParser V) → List Text → Dict V → Dict V
unfolding first_value insert
parse_lines ps [] result = result
parse_lines ps (line ∷ lines) result = parse_lines ps lines (add_value (first_value ps line) result)

-- `LogData(log, parsers).result`
unfoldable pub log_result : {V : Type 0} → Dict (LineParser V) → Text → Dict V
unfolding parse_lines split
log_result ps log = parse_lines ps (split b'\n' log) []
