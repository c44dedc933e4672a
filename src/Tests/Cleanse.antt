-- ===== src/Tests/Cleanse.antt =====
-- Comments, strings and brackets of tools/cpplint.py on small files.
use optimer.Prelude.{List, [], ap, arith, length, none, refl, some, ℕ, ◌∷◌, ◌≡◌}
use optimer.Text.{Text, codes}
use optimer.Lint.Event.{Event}
use optimer.Lint.Cleanse.{
  CleansedLines, cleanse_comments, closes_comment, collapse_strings, dummy,
  find_next_multi_line_comment_end, find_next_multi_line_comment_start, is_cpp_string, line_at,
  opens_comment, remove_multi_line_comments, remove_multi_line_comments_from_range,
}
use optimer.Lint.Cleanse.Scan.{IsFirstOpen, find_next_multi_line_comment_start-IsFirstOpen}
use optimer.Lint.Cleanse.Multiline.{
  ClosedBefore, IsCleared, remove_multi_line_comments-IsCleared, remove_multi_line_comments-closed,
  remove_multi_line_comments_idem,
}
use optimer.Lint.Expression.{close_expression, closing, code_at, find_end_of_expression_in_line}
use optimer.Lint.Expression.Close.{IsClosing, close_expression-IsClosing, close_expression-found}

abbrev file : List Text
file = codes "int a;" ∷ codes "  /* one" ∷ codes "  two */" ∷ codes "int b;" ∷ []

abbrev cleared_file : List Text
cleared_file = codes "int a;" ∷ dummy ∷ dummy ∷ codes "int b;" ∷ []

file_cleared : remove_multi_line_comments (codes "a.cc") file ≡ (cleared_file, [])
unfolding remove_multi_line_comments find_next_multi_line_comment_start
    find_next_multi_line_comment_end remove_multi_line_comments_from_range opens_comment
    closes_comment
file_cleared = refl

no_error : (remove_multi_line_comments (codes "a.cc") file).1 ≡ []
no_error = ap (λ (r : List Text × List Event). r.1) file_cleared

remove_multi_line_comments-IsCleared_example :
    IsCleared file (remove_multi_line_comments (codes "a.cc") file).0
remove_multi_line_comments-IsCleared_example =
    remove_multi_line_comments-IsCleared (codes "a.cc") file

remove_multi_line_comments-closed_example :
    ClosedBefore (remove_multi_line_comments (codes "a.cc") file).0 (length file)
remove_multi_line_comments-closed_example =
    remove_multi_line_comments-closed (codes "a.cc") file no_error

remove_multi_line_comments_idem_example :
    remove_multi_line_comments (codes "a.cc") (remove_multi_line_comments (codes "a.cc") file).0
    ≡ ((remove_multi_line_comments (codes "a.cc") file).0, [])
remove_multi_line_comments_idem_example =
    remove_multi_line_comments_idem (codes "a.cc") file no_error

find_next_multi_line_comment_start-IsFirstOpen_example :
    IsFirstOpen file 0 (find_next_multi_line_comment_start file 0)
find_next_multi_line_comment_start-IsFirstOpen_example =
    find_next_multi_line_comment_start-IsFirstOpen file 0 (omega arith)

comment_cut : cleanse_comments (codes "f(\"//\");  // call") ≡ codes "f(\"//\");  // call"
unfolding cleanse_comments is_cpp_string
comment_cut = refl

c_comment_cut : cleanse_comments (codes "a /* b */ c;") ≡ codes "a c;"
unfolding cleanse_comments is_cpp_string
c_comment_cut = refl

strings_collapsed : collapse_strings (codes "f(\"a\\\"b\", 'c');") ≡ codes "f(\"\", '');"
unfolding collapse_strings
strings_collapsed = refl

abbrev call : CleansedLines
call = record {
  elided = codes "f(a," ∷ codes "  g(b));" ∷ [];
  lines = [];
  raw_lines = [];
  num_lines = 2;
}

call_closed : (close_expression call 0 1).position ≡ some 7
unfolding close_expression find_end_of_expression_in_line
call_closed = refl

close_expression-IsClosing_example :
    (e : ℕ) × (closing (code_at (line_at call.elided 0) 1) ≡ some e)
    × IsClosing call 0 1 e (close_expression call 0 1) 7
close_expression-IsClosing_example = close_expression-IsClosing call 0 1 7 call_closed

abbrev open_call : CleansedLines
open_call = record { elided = codes "f(a," ∷ []; lines = []; raw_lines = []; num_lines = 1 }

open_call_not_closed : (close_expression open_call 0 1).position ≡ none
unfolding close_expression find_end_of_expression_in_line
open_call_not_closed = refl

close_expression-found_example : (close_expression open_call 0 1).linenum ≡ 1
close_expression-found_example = close_expression-found open_call 0 1 open_call_not_closed
