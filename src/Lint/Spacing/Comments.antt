-- ===== src/Lint/Spacing/Comments.antt =====
-- The spaces round a comment, in `CheckSpacing` of tools/cpplint.py.
use mathlib.Core.List.{reverse}
use optimer.Prelude.{
  Bool, List, [], drop, false, if◌then◌else◌, none, not, some, take, ℕ, ◌%◌, ◌&&◌, ◌+◌, ◌==◌, ◌||◌,
  ◌∷◌,
}
use optimer.Text.{Text, codes, count, find, is_space}
use optimer.Regex.{Regex, bol, cat, cls, eol, found, matches, one, one_of, plus, spaces, star, str}
use optimer.Lint.Event.{Event, calls, complain}
use optimer.Lint.Lines.{check_comment}

-- ^\s*{ //
abbrev re_new_scope : Regex
re_new_scope = cat (bol ∷ spaces ∷ str "{ //" ∷ [])

-- whether one of the two codes in front, the nearest first, is no white space
abbrev too_near : Text → Bool
too_near [] = false
too_near (c ∷ []) = not (is_space c)
too_near (c ∷ d ∷ s) = not (is_space c) || not (is_space d)

-- [=/-]{4,}\s*$
abbrev re_delimiter : Regex
re_delimiter = cat (
    cat (
      cls (one_of (codes "=/-"))
      ∷ cls (one_of (codes "=/-"))
      ∷ cls (one_of (codes "=/-"))
      ∷ cls (one_of (codes "=/-"))
      ∷ star (cls (one_of (codes "=/-")))
      ∷ [])
    ∷ spaces
    ∷ eol
    ∷ [])

-- ^/$
abbrev re_empty_doxygen : Regex
re_empty_doxygen = cat (bol ∷ one b'/' ∷ eol ∷ [])

-- ^/+
abbrev re_many_slashes : Regex
re_many_slashes = cat (bol ∷ plus (one b'/') ∷ one b' ' ∷ [])

unspaced : Text → Bool
unfolding found
unspaced [] = false
unspaced (c ∷ s) =
    not (c == b' ')
    && not (
        found re_delimiter (c ∷ s)
        || (found re_empty_doxygen (c ∷ s) || found re_many_slashes (c ∷ s)))

-- A difference and a sum of counts have one parity.
comment_events : Text → ℕ → Text → ℕ → List Event
unfolding count matches unspaced check_comment
comment_events filename linenum line commentpos =
    let front = take commentpos line in
    if (count front (codes "\"") + count front (codes "\\\"")) % 2 == 0
    then calls (
        complain filename linenum (not (matches re_new_scope line) && too_near (reverse front))
          "whitespace/comments" 2 (codes "At least two spaces is best between code and comments")
        ∷ complain filename linenum (unspaced (drop (commentpos + 2) line)) "whitespace/comments" 4
            (codes "Should have a space between // and comment")
        ∷ check_comment (drop commentpos line) filename linenum
        ∷ [])
    else []

unfoldable pub check_comment_spacing : Text → ℕ → Text → List Event
unfolding find comment_events
check_comment_spacing filename linenum line = elim (find line (codes "//")) [
  | none ↦ []
  | some commentpos ↦ comment_events filename linenum line commentpos
]
