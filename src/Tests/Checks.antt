-- ===== src/Tests/Checks.antt =====
-- The nesting state, header guards and single-line checks of tools/cpplint.py on small inputs.
use optimer.Prelude.{List, [], ap, inl, refl, true, ◌++◌, ◌∙◌, ◌∷◌, ◌≡◌, ◌≢◌}
use optimer.Text.{Text, codes}
use optimer.Lint.Cleanse.{CleansedLines}
use optimer.Lint.Nesting.{BlockInfo, empty_nesting, new_block, plain, top_seen}
use optimer.Lint.Nesting.Preprocessor.{
  Region, branch, change, conditional, first_branches, no_branch, run_region,
  run_region-first_branches,
}
use optimer.Lint.Nesting.Braces.{
  IsBraced, apply_tokens, apply_tokens-IsBraced, braces, done, separator,
}
use optimer.Lint.HeaderGuard.{check_for_header_guard}
use optimer.Lint.HeaderGuard.Guarded.{IsGuarded, check_for_header_guard_iff}
use optimer.Regex.{bol, re_search, seq, str}
use optimer.Lint.SameModule.{files_belong_to_same_module, one_tree, stem_cc, stem_h}
use optimer.Lint.SameModule.Prefix.{
  IsHeaderStem, IsModule, files_belong_to_same_module_iff, stem_h-append,
}
use optimer.Lint.TextInside.{assertion_failed, get_text_inside, inside_text, not_inside}
use optimer.Lint.TextInside.Balanced.{IsInside, get_text_inside_iff}

-- `{` in both branches of a conditional: one block is opened
abbrev opened_twice : Region
opened_twice =
    let opens : Region = change λ (bs : List BlockInfo). new_block true plain ∷ bs in
    conditional opens (branch opens no_branch)

run_region-first_branches_example :
    run_region opened_twice empty_nesting
    ≡ record empty_nesting { stack = new_block true plain ∷ [] }
unfolding first_branches
run_region-first_branches_example = run_region-first_branches opened_twice empty_nesting

abbrev header : List Text
header = codes "#ifndef A_H_" ∷ codes "#define A_H_" ∷ codes "#endif  // A_H_" ∷ []

header_quiet : check_for_header_guard (codes "a.h") header (codes "A_H_") ≡ []
unfolding check_for_header_guard
header_quiet = refl

check_for_header_guard_iff_example : IsGuarded (codes "A_H_") header
check_for_header_guard_iff_example =
    (check_for_header_guard_iff (codes "a.h") header (codes "A_H_")).0 header_quiet

abbrev loop_lines : CleansedLines
loop_lines = record { lines = []; elided = []; raw_lines = []; num_lines = 0 }

two_blocks : IsBraced (b'{' ∷ b'{' ∷ b';' ∷ b'}' ∷ b'}' ∷ [])
two_blocks = braces refl refl (braces refl refl (separator (inl refl) done) done) done

apply_tokens-IsBraced_example :
    apply_tokens (codes "a.cc") loop_lines 0 [] (b'{' ∷ b'{' ∷ b';' ∷ b'}' ∷ b'}' ∷ []) []
    ≡ ([], [])
unfolding top_seen
apply_tokens-IsBraced_example =
    apply_tokens-IsBraced (codes "a.cc") loop_lines 0 [] two_blocks [] refl

abbrev call : Text
call = codes "printf(f(x), y) + g(z)"

call_inside : get_text_inside call (str "printf(") ≡ inside_text (codes "f(x), y")
unfolding get_text_inside re_search
call_inside = refl

get_text_inside_iff_example : IsInside call (str "printf(") (codes "f(x), y")
get_text_inside_iff_example =
    (get_text_inside_iff call (str "printf(") (codes "f(x), y")).0 call_inside

-- a closing bracket of another kind
crossed : get_text_inside (codes "printf(f(x]") (str "printf(") ≡ not_inside
unfolding get_text_inside re_search
crossed = refl

-- the start of a line behind the first
second_line : get_text_inside (codes "x\nf(a)") (seq bol (str "f(")) ≡ inside_text (codes "a")
unfolding get_text_inside re_search
second_line = refl

no_bracket : get_text_inside (codes "f(a)") (str "f") ≡ assertion_failed
unfolding get_text_inside re_search
no_bracket = refl

one_module :
    files_belong_to_same_module (codes "a/base/x_test.cc") (codes "base/x.h") ≡ (true, codes "a/")
unfolding files_belong_to_same_module stem_cc stem_h
one_module = refl

stem_of_x : stem_h (codes "base/x.h") ≢ []
unfolding stem_h
stem_of_x h = cc

named : (s w : Text) → codes "base/x.h" ≡ s ++ codes ".h" → IsHeaderStem s w → one_tree w ≢ []
named s w e stem empty = stem_of_x (ap stem_h e ∙ stem_h-append s w stem ∙ empty)

files_belong_to_same_module_iff_example :
    IsModule (codes "a/base/x_test.cc") (codes "base/x.h") (codes "a/")
files_belong_to_same_module_iff_example =
    (files_belong_to_same_module_iff (codes "a/base/x_test.cc") (codes "base/x.h") (codes "a/")
        named).0
      one_module

-- the name of the header may be the end of another name
other_name : files_belong_to_same_module (codes "foobar.cc") (codes "bar.h") ≡ (true, codes "foo")
unfolding files_belong_to_same_module stem_cc stem_h
other_name = refl

-- the prefix does not open a header in `public`
public_prefix :
    files_belong_to_same_module (codes "a/public/b/x.cc") (codes "b/x.h") ≡ (true, codes "a/")
unfolding files_belong_to_same_module stem_cc stem_h
public_prefix = refl

-- A header without a name but for its endings draws no prefix.
no_prefix : files_belong_to_same_module (codes "a/x.cc") (codes ".h") ≡ (true, [])
unfolding files_belong_to_same_module stem_cc stem_h
no_prefix = refl
