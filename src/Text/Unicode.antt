-- ===== src/Text/Unicode.antt =====
-- The `unicode` methods of Python 2 that ask for white space. tools/cpplint.py decodes what it reads,
-- so that they are those of its lines.
use mathlib.Core.List.{reverse}
use optimer.Prelude.{Bool, List, [], if◌then◌else◌, leb, ℕ, ◌&&◌, ◌==◌, ◌||◌, ◌∷◌}
use optimer.Text.{Text, is_empty, is_space, split_by}

-- c.isspace(): the codes that Unicode has as white space or as separators of lines and paragraphs
abbrev pub is_unicode_space : ℕ → Bool
is_unicode_space c =
    is_space c
    || ((leb 28 c && leb c 31)
        || (c == 133
            || (c == 160
                || (c == 5760
                    || (c == 6158
                        || ((leb 8192 c && leb c 8202)
                            || (c == 8232
                                || (c == 8233 || (c == 8239 || (c == 8287 || c == 12288))))))))))

unfoldable pub unicode_lstrip : Text → Text
unicode_lstrip [] = []
unicode_lstrip (c ∷ s) = if is_unicode_space c then unicode_lstrip s else c ∷ s

unfoldable pub unicode_rstrip : Text → Text
unfolding unicode_lstrip
unicode_rstrip s = reverse (unicode_lstrip (reverse s))

unfoldable pub unicode_strip : Text → Text
unfolding unicode_rstrip
unicode_strip s = unicode_rstrip (unicode_lstrip s)

drop_empty : List Text → List Text
drop_empty [] = []
drop_empty (t ∷ ts) = if is_empty t then drop_empty ts else t ∷ drop_empty ts

-- s.split()
unfoldable pub unicode_words : Text → List Text
unfolding split_by drop_empty
unicode_words s = drop_empty (split_by is_unicode_space s)
