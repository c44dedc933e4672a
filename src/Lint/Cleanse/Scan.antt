-- ===== src/Lint/Cleanse/Scan.antt =====
-- The scans for the beginning and the end of a multi-line comment in tools/cpplint.py.
use native.Mathlib.Decide.{dec_lt}
use optimer.Prelude.{
  &&-eq-true, Bool, Bool-cases, List, arith, drop, false, inl, inr, length, not, refl, suc, true,
  zero, ℕ, ◌++◌, ◌+◌, ◌-◌, ◌<◌, ◌≡◌, ◌≢◌, ◌≤◌,
}
use optimer.Text.{Text, codes, contains, starts_with}
use optimer.Text.Unicode.{unicode_strip}
use optimer.Text.Laws.{contains_iff, starts_with-append, starts_with→append}
use optimer.Lint.Cleanse.{
  closes_comment, find_next_multi_line_comment_end, find_next_multi_line_comment_start, first_from,
  line_at, opens_comment,
}

-- `r` is the first index from `i` on whose line passes the test, or the number of lines.
pub record IsFirst (test : Text → Bool) (lines : List Text) (i r : ℕ) : Type 0 where
  pub above : i ≤ r
  pub below : r ≤ length lines
  pub skipped : (j : ℕ) → i ≤ j → j < r → test (line_at lines j) ≡ false
  pub hit : r < length lines → test (line_at lines r) ≡ true

first_from-IsFirst :
    (test : Text → Bool) (left : ℕ) (lines : List Text) (i : ℕ)
    → i + left ≡ length lines
    → IsFirst test lines i (first_from test left lines i)
unfolding first_from
first_from-IsFirst test zero lines i e = record {
  above = omega arith;
  below = omega arith;
  skipped = λ j p q. absurd (omega arith);
  hit = λ p. absurd (omega arith);
}
first_from-IsFirst test (suc left) lines i e = elim (Bool-cases (test (line_at lines i))) [
  | inl passes ↦ rw passes record {
    above = omega arith;
    below = omega arith;
    skipped = λ j p q. absurd (omega arith);
    hit = λ p. passes;
  }
  | inr fails ↦
      let ih = first_from-IsFirst test left lines (i + 1) (omega arith) in
      rw fails record {
        above = omega (arith, ih.above);
        below = ih.below;
        skipped = λ j p q. elim (dec_lt i j) [
          | yes past ↦ ih.skipped j (omega arith) q
          | no here ↦ let same : j ≡ i = omega arith in rw same fails
        ];
        hit = ih.hit;
      }
]

-- From an index of the file, the scan for a comment's beginning gives the first line that passes
-- the test of `opens_comment`.
pub start-IsFirst :
    (lines : List Text) (i : ℕ)
    → i ≤ length lines
    → IsFirst opens_comment lines i (find_next_multi_line_comment_start lines i)
unfolding find_next_multi_line_comment_start
start-IsFirst lines i h = first_from-IsFirst opens_comment (length lines - i) lines i (omega arith)

-- The line begins, but for white space, with a comment that does not end on it.
abbrev pub GoesBeyond : Text → Type 0
GoesBeyond line =
    (t : Text) × (unicode_strip line ≡ codes "/*" ++ t) × ((u v : Text) → t ≢ u ++ codes "*/" ++ v)

opens_comment→GoesBeyond : (line : Text) → opens_comment line ≡ true → GoesBeyond line
unfolding opens_comment
opens_comment→GoesBeyond line h =
    let (starts, not_ended) =
      &&-eq-true (starts_with (unicode_strip line) (codes "/*"))
        (not (contains (drop 2 (unicode_strip line)) (codes "*/"))) h in
    let (t, e) = starts_with→append (unicode_strip line) (codes "/*") starts in
    let without_end : not (contains t (codes "*/")) ≡ true = rw e at not_ended in
    (t, e, λ u v k. cc ((contains_iff t (codes "*/")).1 (u, v, k), without_end))

GoesBeyond→opens_comment : (line : Text) → GoesBeyond line → opens_comment line ≡ true
unfolding opens_comment
GoesBeyond→opens_comment line (t, e, goes_on) = elim (Bool-cases (contains t (codes "*/"))) [
  | inl ends ↦ let (u, v, k) = (contains_iff t (codes "*/")).0 ends in absurd (goes_on u v k)
  | inr open_end ↦ rw (opens_comment, e, starts_with-append (codes "/*") t, open_end) refl
]

-- `r` is the first index from `i` of a line with a comment that goes beyond it, or the number of
-- lines.
pub record IsFirstOpen (lines : List Text) (i r : ℕ) : Type 0 where
  pub above : i ≤ r
  pub below : r ≤ length lines
  pub skipped : (j : ℕ) → i ≤ j → j < r → ¬ GoesBeyond (line_at lines j)
  pub hit : r < length lines → GoesBeyond (line_at lines r)

-- From an index of the file, the scan for a comment's beginning finds the first line that begins,
-- but for white space, with `/*` and has no `*/` behind this, or the end of the file.
pub find_next_multi_line_comment_start-IsFirstOpen :
    (lines : List Text) (i : ℕ)
    → i ≤ length lines
    → IsFirstOpen lines i (find_next_multi_line_comment_start lines i)
find_next_multi_line_comment_start-IsFirstOpen lines i h =
    let first = start-IsFirst lines i h in
    record {
      above = first.above;
      below = first.below;
      skipped = λ j p q beyond.
          cc (GoesBeyond→opens_comment (line_at lines j) beyond, first.skipped j p q);
      hit = λ p. opens_comment→GoesBeyond _ (first.hit p);
    }

-- From an index of the file, the scan for a comment's end finds the first line that ends in `*/`,
-- or the end of the file.
pub find_next_multi_line_comment_end-IsFirst :
    (lines : List Text) (i : ℕ)
    → i ≤ length lines
    → IsFirst closes_comment lines i (find_next_multi_line_comment_end lines i)
unfolding find_next_multi_line_comment_end
find_next_multi_line_comment_end-IsFirst lines i h =
    first_from-IsFirst closes_comment (length lines - i) lines i (omega arith)
