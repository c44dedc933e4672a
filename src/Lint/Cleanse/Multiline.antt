-- ===== src/Lint/Cleanse/Multiline.antt =====
-- `RemoveMultiLineComments` of tools/cpplint.py: no multi-line comment is left.
use native.Mathlib.Decide.{dec_lt}
use optimer.Prelude.{
  Bool-cases, List, [], ap, arith, false, if◌then◌else◌, inl, inr, leb, leb→le, leb→lt, length, ltb,
  refl, subst, suc, sym, zero, ℕ, ◌&&◌, ◌+◌, ◌<◌, ◌∙◌, ◌∷◌, ◌≡◌, ◌≤◌, ◌⊎◌,
}
use optimer.Text.{Text}
use optimer.Lint.Event.{Event}
use optimer.Lint.Cleanse.{
  clear_from, dummy, find_next_multi_line_comment_end, find_next_multi_line_comment_start, line_at,
  opens_comment, remove_loop, remove_multi_line_comments, remove_multi_line_comments_from_range,
}
use optimer.Lint.Cleanse.Scan.{IsFirst, find_next_multi_line_comment_end-IsFirst, start-IsFirst}

length-clear_from :
    (i begin end : ℕ) (lines : List Text) → length (clear_from i begin end lines) ≡ length lines
unfolding clear_from
length-clear_from i begin end [] = refl
length-clear_from i begin end (l ∷ ls) = ap suc (length-clear_from (suc i) begin end ls)

line_at-clear_from :
    (i begin end : ℕ) (lines : List Text) (j : ℕ)
    → j < length lines
    → line_at (clear_from i begin end lines) j
      ≡ (if leb begin (i + j) && ltb (i + j) end then dummy else line_at lines j)
unfolding clear_from
line_at-clear_from i begin end [] j h = absurd (omega arith)
line_at-clear_from i begin end (l ∷ ls) zero h = ground arith
line_at-clear_from i begin end (l ∷ ls) (suc j) h =
    ground (arith, line_at-clear_from (suc i) begin end ls j)

-- Clearing up to a line before the index leaves what stands from the index on.
pub clear-behind :
    (lines : List Text) (begin end j : ℕ)
    → end < j
    → j < length lines
    → line_at (remove_multi_line_comments_from_range lines begin (end + 1)) j ≡ line_at lines j
unfolding remove_multi_line_comments_from_range
clear-behind lines begin end j h p = ground (arith, line_at-clear_from 0 begin (end + 1) lines j p)

pub length-remove_range :
    (lines : List Text) (begin end : ℕ)
    → length (remove_multi_line_comments_from_range lines begin end) ≡ length lines
unfolding remove_multi_line_comments_from_range
length-remove_range lines begin end = length-clear_from 0 begin end lines

-- Every line is as it was, or the dummy comment.
pub record IsCleared (before after : List Text) : Type 0 where
  pub same_length : length after ≡ length before
  pub each :
      (j : ℕ) → j < length before → (line_at after j ≡ line_at before j) ⊎ (line_at after j ≡ dummy)

IsCleared-refl : (lines : List Text) → IsCleared lines lines
IsCleared-refl lines = record { same_length = refl; each = λ j h. inl refl }

IsCleared-trans : {a b c : List Text} → IsCleared a b → IsCleared b c → IsCleared a c
IsCleared-trans {a} {b} {c} p q = record {
  same_length = q.same_length ∙ p.same_length;
  each = λ j h. ground (arith, p.same_length, p.each j h, q.each j);
}

IsCleared-range :
    (lines : List Text) (begin end : ℕ)
    → IsCleared lines (remove_multi_line_comments_from_range lines begin end)
unfolding remove_multi_line_comments_from_range
IsCleared-range lines begin end = record {
  same_length = length-clear_from 0 begin end lines;
  each = λ j h. ground (arith, line_at-clear_from 0 begin end lines j h);
}

dummy_opens_no_comment : opens_comment dummy ≡ false
unfolding opens_comment
dummy_opens_no_comment = refl

-- No line before `i` opens a multi-line comment.
abbrev pub ClosedBefore : List Text → ℕ → Type 0
ClosedBefore lines i = (j : ℕ) → j < i → opens_comment (line_at lines j) ≡ false

-- What the loop gives from `i` on, in `r`.
record Removed (lines : List Text) (r : List Text × List Event) : Type 0 where
  cleared : IsCleared lines r.0
  closed : r.1 ≡ [] → ClosedBefore r.0 (length lines)

module _ (lines : List Text) (i : ℕ) (within : i ≤ length lines)
    (closed : ClosedBefore lines i) where
  begin-at : IsFirst opens_comment lines i (find_next_multi_line_comment_start lines i)
  begin-at = start-IsFirst lines i within

  closed_to_begin : ClosedBefore lines (find_next_multi_line_comment_start lines i)
  closed_to_begin j h = elim (dec_lt j i) [
    | yes p ↦ closed j p
    | no p ↦ begin-at.skipped j (omega arith) h
  ]

  closed_after :
      (end : ℕ)
      → end < length lines
      → ClosedBefore
          (remove_multi_line_comments_from_range lines
            (find_next_multi_line_comment_start lines i)
            (end + 1))
          (end + 1)
  unfolding remove_multi_line_comments_from_range
  closed_after end h j p =
      let begin = find_next_multi_line_comment_start lines i in
      ground (
        arith,
        line_at-clear_from 0 begin (end + 1) lines j,
        closed_to_begin j,
        dummy_opens_no_comment,
      )

Removed-after :
    {lines mid : List Text} {r : List Text × List Event}
    → IsCleared lines mid
    → Removed mid r
    → Removed lines r
Removed-after {lines} {mid} {r} c d = record {
  cleared = IsCleared-trans c d.cleared;
  closed = λ q. subst (ClosedBefore r.0) c.same_length (d.closed q);
}

remove_loop-Removed :
    (filename : Text) (left : ℕ) (lines : List Text) (i : ℕ)
    → i ≤ length lines
    → length lines < i + left
    → ClosedBefore lines i
    → Removed lines (remove_loop filename left lines i)
unfolding remove_loop
remove_loop-Removed filename zero lines i h f closed = absurd (omega arith)
remove_loop-Removed filename (suc left) lines i h f closed =
    let begin = find_next_multi_line_comment_start lines i in
    let end = find_next_multi_line_comment_end lines begin in
    let b = begin-at lines i h closed in
    let e = find_next_multi_line_comment_end-IsFirst lines begin b.below in
    elim (Bool-cases (leb (length lines) begin)) [
      | inl none_left ↦ rw none_left record {
        cleared = IsCleared-refl lines;
        closed = λ _ j p.
            closed_to_begin lines i h closed j
              (omega (arith, leb→le (length lines) begin none_left));
      }
      | inr starts ↦ elim (Bool-cases (leb (length lines) end)) [
        | inl endless ↦
            rw (starts, endless) record { cleared = IsCleared-refl lines; closed = λ q. cc }
        | inr ends ↦
            let mid = remove_multi_line_comments_from_range lines begin (end + 1) in
            let c = IsCleared-range lines begin (end + 1) in
            let inside = leb→lt (length lines) end ends in
            rw (starts, ends)
              (Removed-after c (
                remove_loop-Removed filename left mid (end + 1) (omega (arith, c.same_length))
                  (omega (arith, c.same_length, b.above, e.above))
                  (closed_after lines i h closed end inside)))
      ]
    ]

remove-Removed :
    (filename : Text) (lines : List Text)
    → Removed lines (remove_multi_line_comments filename lines)
unfolding remove_multi_line_comments
remove-Removed filename lines =
    remove_loop-Removed filename (suc (length lines)) lines 0 (omega arith) (omega arith)
      (λ j h. absurd (omega arith))

-- Whatever the file, as many lines come out as go in, and each is as it was or the dummy comment.
pub remove_multi_line_comments-IsCleared :
    (filename : Text) (lines : List Text)
    → IsCleared lines (remove_multi_line_comments filename lines).0
remove_multi_line_comments-IsCleared filename lines = (remove-Removed filename lines).cleared

-- Where no error is reported, no line that is left opens a multi-line comment.
pub remove_multi_line_comments-closed :
    (filename : Text) (lines : List Text)
    → (remove_multi_line_comments filename lines).1 ≡ []
    → ClosedBefore (remove_multi_line_comments filename lines).0 (length lines)
remove_multi_line_comments-closed filename lines = (remove-Removed filename lines).closed

closed_unchanged :
    (filename : Text) (lines : List Text)
    → ClosedBefore lines (length lines)
    → remove_multi_line_comments filename lines ≡ (lines, [])
unfolding remove_multi_line_comments remove_loop
closed_unchanged filename lines closed =
    let first = start-IsFirst lines 0 (omega arith) in
    elim (Bool-cases (leb (length lines) (find_next_multi_line_comment_start lines 0))) [
      | inl done ↦ rw done
      | inr more ↦
          let inside = leb→lt (length lines) _ more in cc (first.hit inside, closed _ inside)
    ]

-- A second run over lines of which the first reported no error changes and reports nothing.
pub remove_multi_line_comments_idem :
    (filename : Text) (lines : List Text)
    → (remove_multi_line_comments filename lines).1 ≡ []
    → remove_multi_line_comments filename (remove_multi_line_comments filename lines).0
      ≡ ((remove_multi_line_comments filename lines).0, [])
remove_multi_line_comments_idem filename lines h =
    let r = remove-Removed filename lines in
    closed_unchanged filename _ (subst (ClosedBefore _) (sym r.cleared.same_length) (r.closed h))
