-- ===== src/Lint/Function.antt =====
-- `_FunctionState` of tools/cpplint.py: the length of the function body at hand.
pub mod Length
use optimer.Prelude.{
  Bool, List, [], false, if◌then◌else◌, ltb, suc, true, zero, ℕ, ◌*◌, ◌++◌, ◌+◌, ◌/◌, ◌^◌, ◌∷◌,
}
use optimer.Text.{Text, codes, decimal}
use optimer.Regex.{Regex, alt, matches, one, seq, str}
use optimer.Lint.Event.{Event, report}

pub record FunctionState : Type 0 where
  pub in_a_function : Bool
  pub lines_in_function : ℕ
  pub current_function : Text

abbrev pub empty_function_state : FunctionState
empty_function_state = record {
  in_a_function = false;
  lines_in_function = 0;
  current_function = [];
}

abbrev pub normal_trigger : ℕ
normal_trigger = 250

abbrev pub test_trigger : ℕ
test_trigger = 400

unfoldable pub begin_function : Text → FunctionState → FunctionState
begin_function function_name s = record {
  in_a_function = true;
  lines_in_function = 0;
  current_function = function_name;
}

unfoldable pub count_line : FunctionState → FunctionState
count_line s =
    if s.in_a_function then record s { lines_in_function = s.lines_in_function + 1 } else s

unfoldable pub end_function : FunctionState → FunctionState
end_function s = record s { in_a_function = false }

-- T(EST|est)
re_test : Regex
re_test = seq (one b'T') (alt (str "EST") (str "est"))

unfoldable pub base_trigger : Text → ℕ
unfolding re_test matches
base_trigger function = if matches re_test function then test_trigger else normal_trigger

-- int(math.log(n, 2)) for n > 0: the rounds of halving until 1 is left
log2_from : ℕ → ℕ → ℕ
log2_from zero n = 0
log2_from (suc fuel) n = let more = log2_from fuel (n / 2) in if ltb n 2 then 0 else suc more

unfoldable pub log2 : ℕ → ℕ
unfolding log2_from
log2 n = log2_from n n

unfoldable pub error_level : ℕ → ℕ → ℕ
error_level lines base = let level = log2 (lines / base) in if ltb 5 level then 5 else level

unfoldable pub check_function : Text → ℕ → ℕ → FunctionState → List Event
unfolding decimal
check_function filename linenum verbose_level s =
    let base = base_trigger s.current_function in
    let trigger = base * 2 ^ verbose_level in
    if ltb trigger s.lines_in_function
    then report filename linenum (codes "readability/fn_size")
        (error_level s.lines_in_function base)
        (codes "Small and focused functions are preferred: "
          ++ s.current_function
          ++ codes " has "
          ++ decimal s.lines_in_function
          ++ codes " non-comment lines (error triggered by exceeding "
          ++ decimal trigger
          ++ codes " lines).")
      ∷ []
    else []
