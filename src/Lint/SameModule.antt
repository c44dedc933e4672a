-- ===== src/Lint/SameModule.antt =====
-- `FilesBelongToSameModule` of tools/cpplint.py.
pub mod Prefix
use optimer.Prelude.{Bool, [], false, if◌then◌else◌, length, not, take, true, ◌-◌, ◌∷◌}
use optimer.Text.{Text, codes, ends_with, replace}

-- s[:-len(suffix)], for a suffix that is not empty and that the text ends with
abbrev pub without_end : Text → Text → Text
without_end s suffix = take (length s - length suffix) s

-- .replace('/public/', '/').replace('/internal/', '/')
unfoldable pub one_tree : Text → Text
unfolding replace
one_tree s = replace (replace s (codes "/public/") (codes "/")) (codes "/internal/") (codes "/")

unfoldable pub without_test : Text → Text
unfolding ends_with
without_test s =
    if ends_with s (codes "_unittest")
    then without_end s (codes "_unittest")
    else if ends_with s (codes "_test")
    then without_end s (codes "_test")
    else s

unfoldable pub without_inl : Text → Text
unfolding ends_with
without_inl s = if ends_with s (codes "-inl") then without_end s (codes "-inl") else s

-- the name of a source file without its ending, and without that of a test
unfoldable pub stem_cc : Text → Text
unfolding without_test one_tree
stem_cc filename_cc = one_tree (without_test (without_end filename_cc (codes ".cc")))

unfoldable pub stem_h : Text → Text
unfolding without_inl one_tree
stem_h filename_h = one_tree (without_inl (without_end filename_h (codes ".h")))

-- filename_cc[:-len(filename_h)], which is empty where filename_h is
unfoldable pub common_path : Text → Text → Text
common_path filename_cc [] = []
common_path filename_cc (c ∷ s) = without_end filename_cc (c ∷ s)

-- whether the files belong to one module, and the prefix that opens the header
unfoldable pub files_belong_to_same_module : Text → Text → Bool × Text
unfolding common_path
files_belong_to_same_module filename_cc filename_h =
    if not (ends_with filename_cc (codes ".cc"))
    then (false, [])
    else if not (ends_with filename_h (codes ".h"))
    then (false, [])
    else if ends_with (stem_cc filename_cc) (stem_h filename_h)
    then (true, common_path (stem_cc filename_cc) (stem_h filename_h))
    else (false, [])
