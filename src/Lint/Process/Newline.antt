-- ===== src/Lint/Process/Newline.antt =====
-- The check of tools/cpplint.py for a newline at the end of a file, over the lines that `ProcessFile`
-- reads.
use optimer.Prelude.{
  Bool-cases, List, [], all, ap, arith, false, inl, inr, length, le→ltb, ltb, map, not, refl, suc,
  true, zero, ℕ, ◌++◌, ◌-◌, ◌<◌, ◌==◌, ◌||◌, ◌↔◌, ◌∙◌, ◌∷◌, ◌≡◌,
}
use optimer.Text.{Text, codes, is_empty, last_piece, split}
use optimer.Lint.Event.{complain_iff}
use optimer.Lint.Cleanse.{closes_comment, line_at, remove_multi_line_comments}
use optimer.Lint.Cleanse.Multiline.{remove_multi_line_comments-IsCleared}
use optimer.Lint.Cleanse.Tail.{is_empty-remove_multi_line_comments}
use optimer.Lint.WholeFile.{check_for_newline_at_eof, last_but_one}
use optimer.Lint.Process.{read_lines_of, strip_returns, with_markers}
use optimer.Text.Laws.{Without, split-Without}

split-cons : (sep : ℕ) (s : Text) → (p : Text) × (ps : List Text) × (split sep s ≡ p ∷ ps)
unfolding split
split-cons sep [] = ([], [], refl)
split-cons sep (c ∷ s) = elim (Bool-cases (c == sep)) [
  | inl here ↦ ([], split sep s, rw here refl)
  | inr other ↦ let (p, ps, e) = split-cons sep s in (c ∷ p, ps, rw (other, e) refl)
]

-- The pieces of a text with a newline are two or more, and the last is that of the text behind the
-- newline.
split-behind :
    (u v : Text)
    → (p q : Text) × (ps : List Text) × (split b'\n' (u ++ b'\n' ∷ v) ≡ p ∷ q ∷ ps)
      × (last_piece (q ∷ ps) ≡ last_piece (split b'\n' v))
unfolding split
split-behind [] v =
    let (q, ps, e) = split-cons b'\n' v in ([], q, ps, ap (λ (l : List Text). [] ∷ l) e, rw e refl)
split-behind (c ∷ u) v =
    let (p, q, ps, e, last) = split-behind u v in
    elim (Bool-cases (c == b'\n')) [
      | inl newline ↦ ([], p, q ∷ ps, rw (newline, e) refl, last)
      | inr other ↦ (c ∷ p, q, ps, rw (other, e) refl, last)
    ]

last_but_one-append :
    (p : Text) (ps : List Text) (l : Text) → last_but_one (p ∷ ps ++ l ∷ []) ≡ last_piece (p ∷ ps)
last_but_one-append p [] l = refl
last_but_one-append p (q ∷ []) l = refl
last_but_one-append p (q ∷ r ∷ ps) l = last_but_one-append q (r ∷ ps) l

last_piece-map :
    (p : Text) (ps : List Text)
    → last_piece (map strip_returns (p ∷ ps)) ≡ strip_returns (last_piece (p ∷ ps))
last_piece-map p [] = refl
last_piece-map p (q ∷ ps) = last_piece-map q ps

is_empty-strip_returns : (v : Text) → is_empty (strip_returns v) ≡ all (λ c. c == 13) v
unfolding strip_returns
is_empty-strip_returns [] = refl
is_empty-strip_returns (c ∷ v) = ground (arith, is_empty-strip_returns v)

-- the lines that are checked of such a text
marked_lines :
    (u v : Text)
    → Without b'\n' v
    → (2 < length (with_markers (read_lines_of (u ++ b'\n' ∷ v))))
      × (last_but_one (with_markers (read_lines_of (u ++ b'\n' ∷ v))) ≡ strip_returns v)
unfolding with_markers read_lines_of
marked_lines u v h =
    let (p, q, ps, e, last) = split-behind u v in
    let lines = map strip_returns (p ∷ q ∷ ps) in
    let at_end : last_piece (q ∷ ps) ≡ v = last ∙ ap last_piece (split-Without b'\n' v h) in
    let end = codes "// marker so line numbers end in a known way" in
    rw (with_markers, read_lines_of, e)
      (
        omega arith,
        last_but_one-append (strip_returns p) (map strip_returns (q ∷ ps)) end
            ∙ last_piece-map q ps
            ∙ ap strip_returns at_end,
      )

last_but_one-line_at :
    (lines : List Text) (j : ℕ) → suc (suc j) ≡ length lines → last_but_one lines ≡ line_at lines j
last_but_one-line_at [] j h = absurd (omega arith)
last_but_one-line_at (l ∷ []) j h = absurd (omega arith)
last_but_one-line_at (l ∷ m ∷ []) zero h = refl
last_but_one-line_at (l ∷ m ∷ []) (suc j) h = absurd (omega arith)
last_but_one-line_at (l ∷ m ∷ n ∷ ls) zero h = absurd (omega arith)
last_but_one-line_at (l ∷ m ∷ n ∷ ls) (suc j) h = last_but_one-line_at (m ∷ n ∷ ls) j (omega arith)

line_at-last :
    (ls : List Text) (l : Text) (j : ℕ)
    → suc j ≡ length (ls ++ l ∷ [])
    → line_at (ls ++ l ∷ []) j ≡ l
line_at-last [] l zero h = refl
line_at-last [] l (suc j) h = absurd (omega arith)
line_at-last (k ∷ []) l zero h = absurd (omega arith)
line_at-last (k ∷ m ∷ ls) l zero h = absurd (omega arith)
line_at-last (k ∷ ls) l (suc j) h = line_at-last ls l j (omega arith)

marker_closes_nothing :
    (lines : List Text) (j : ℕ)
    → suc j ≡ length (with_markers lines)
    → closes_comment (line_at (with_markers lines) j) ≡ false
unfolding with_markers closes_comment
marker_closes_nothing lines j h =
    let begin = codes "// marker so line numbers and indices both start at 1" in
    rw (line_at-last (begin ∷ lines) (codes "// marker so line numbers end in a known way") j h)
      refl

-- The removal of the comments leaves the second line from the end empty or not, as it was.
cleared_end :
    (filename : Text) (lines : List Text)
    → 2 < length (with_markers lines)
    → is_empty (last_but_one (remove_multi_line_comments filename (with_markers lines)).0)
      ≡ is_empty (last_but_one (with_markers lines))
cleared_end filename lines h =
    let marked = with_markers lines in
    let r = (remove_multi_line_comments filename marked).0 in
    let same = (remove_multi_line_comments-IsCleared filename marked).same_length in
    let j = length marked - 2 in
    rw
      (
        last_but_one-line_at r j (omega (arith, same, h)),
        last_but_one-line_at marked j (omega (arith, h)),
      )
      (is_empty-remove_multi_line_comments filename marked j (omega (arith, h))
        (marker_closes_nothing lines (suc j) (omega (arith, h))))

-- Where the last newline of a text has `v` behind it, the check of the newline at the end, over the
-- lines without their multi-line comments, reports nothing exactly when `v` holds carriage returns
-- only.
pub check_for_newline_at_eof_iff :
    (filename u v : Text)
    → Without b'\n' v
    → (check_for_newline_at_eof filename
          (remove_multi_line_comments filename (with_markers (read_lines_of (u ++ b'\n' ∷ v)))).0
        ≡ [])
      ↔ (all (λ c. c == 13) v ≡ true)
unfolding check_for_newline_at_eof
check_for_newline_at_eof_iff filename u v h =
    let marked = with_markers (read_lines_of (u ++ b'\n' ∷ v)) in
    let (three, last) = marked_lines u v h in
    let lines = (remove_multi_line_comments filename marked).0 in
    let same = (remove_multi_line_comments-IsCleared filename marked).same_length in
    let test : (ltb (length lines) 3 || not (is_empty (last_but_one lines)))
        ≡ not (all (λ c. c == 13) v) =
      rw
        (
          le→ltb (length lines) 3 (omega (arith, three, same)),
          cleared_end filename (read_lines_of (u ++ b'\n' ∷ v)) three,
          last,
          is_empty-strip_returns v,
        )
        refl in
    let silent =
      complain_iff filename (length lines - 2)
        (ltb (length lines) 3 || not (is_empty (last_but_one lines))) "whitespace/ending_newline" 5
        (codes "Could not find a newline character at the end of the file.") in
    (λ e. ground (arith, silent.0 e, test), λ e. silent.1 (ground (arith, test, e)))
