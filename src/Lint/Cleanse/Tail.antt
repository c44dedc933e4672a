-- ===== src/Lint/Cleanse/Tail.antt =====
-- `RemoveMultiLineComments` of tools/cpplint.py: what stands behind all ends of comments.
use native.Mathlib.Decide.{dec_lt}
use optimer.Prelude.{
  Bool-cases, List, [], arith, false, inl, inr, leb, leb→lt, length, refl, suc, true, zero, ℕ, ◌+◌,
  ◌<◌, ◌∙◌, ◌∷◌, ◌≡◌, ◌≤◌,
}
use optimer.Text.{Text, is_empty}
use optimer.Lint.Cleanse.{
  closes_comment, find_next_multi_line_comment_end, find_next_multi_line_comment_start, line_at,
  remove_loop, remove_multi_line_comments, remove_multi_line_comments_from_range,
}
use optimer.Lint.Cleanse.Scan.{find_next_multi_line_comment_end-IsFirst, start-IsFirst}
use optimer.Lint.Cleanse.Multiline.{
  clear-behind, length-remove_range, remove_multi_line_comments-IsCleared,
}

-- No line from the index on ends a comment.
abbrev pub NoneCloses : List Text → ℕ → Type 0
NoneCloses lines j = (k : ℕ) → j ≤ k → k < length lines → closes_comment (line_at lines k) ≡ false

NoneCloses-clear :
    (lines : List Text) (begin end j : ℕ)
    → end < j
    → NoneCloses lines j
    → NoneCloses (remove_multi_line_comments_from_range lines begin (end + 1)) j
NoneCloses-clear lines begin end j h unclosed k p q =
    let inside : k < length lines = omega (arith, q, length-remove_range lines begin (end + 1)) in
    rw (clear-behind lines begin end k (omega arith) inside) (unclosed k p inside)

line_at-remove_loop :
    (filename : Text) (left : ℕ) (lines : List Text) (i j : ℕ)
    → i ≤ length lines
    → j < length lines
    → NoneCloses lines j
    → line_at (remove_loop filename left lines i).0 j ≡ line_at lines j
unfolding remove_loop
line_at-remove_loop filename zero lines i j h p unclosed = refl
line_at-remove_loop filename (suc left) lines i j h p unclosed =
    let begin = find_next_multi_line_comment_start lines i in
    let end = find_next_multi_line_comment_end lines begin in
    let b = start-IsFirst lines i h in
    let e = find_next_multi_line_comment_end-IsFirst lines begin b.below in
    elim (Bool-cases (leb (length lines) begin)) [
      | inl none_left ↦ rw none_left refl
      | inr starts ↦ elim (Bool-cases (leb (length lines) end)) [
        | inl endless ↦ rw (starts, endless) refl
        | inr ends ↦
            let inside = leb→lt (length lines) end ends in
            let before : end < j = elim (dec_lt end j) [
              | yes q ↦ q
              | no q ↦ cc (e.hit inside, unclosed end (omega arith) inside)
            ] in
            let mid = remove_multi_line_comments_from_range lines begin (end + 1) in
            let same = length-remove_range lines begin (end + 1) in
            rw (starts, ends)
              (line_at-remove_loop filename left mid (end + 1) j (omega (arith, same))
                  (omega (arith, same)) (NoneCloses-clear lines begin end j before unclosed)
                ∙ clear-behind lines begin end j before p)
      ]
    ]

-- A line with no line from it on that ends a comment is not changed.
line_at-remove_multi_line_comments :
    (filename : Text) (lines : List Text) (j : ℕ)
    → j < length lines
    → NoneCloses lines j
    → line_at (remove_multi_line_comments filename lines).0 j ≡ line_at lines j
unfolding remove_multi_line_comments
line_at-remove_multi_line_comments filename lines j p unclosed =
    line_at-remove_loop filename (suc (length lines)) lines 0 j (omega arith) p unclosed

is_empty→≡ : (s : Text) → is_empty s ≡ true → s ≡ []
is_empty→≡ [] h = refl
is_empty→≡ (c ∷ s) h = cc

-- Where the last line does not end a comment, the line above it is empty behind the removal of the
-- comments if and only if it was before.
pub is_empty-remove_multi_line_comments :
    (filename : Text) (lines : List Text) (j : ℕ)
    → suc (suc j) ≡ length lines
    → closes_comment (line_at lines (suc j)) ≡ false
    → is_empty (line_at (remove_multi_line_comments filename lines).0 j)
      ≡ is_empty (line_at lines j)
unfolding closes_comment
is_empty-remove_multi_line_comments filename lines j n last =
    elim (Bool-cases (is_empty (line_at lines j))) [
      | inl empty ↦
          let blank : line_at lines j ≡ [] = is_empty→≡ (line_at lines j) empty in
          let unclosed : NoneCloses lines j = λ k p q. elim (dec_lt j k) [
            | yes past ↦ let at_end : k ≡ suc j = omega arith in rw at_end last
            | no here ↦ let at_line : k ≡ j = omega arith in rw (at_line, blank) refl
          ] in
          rw (line_at-remove_multi_line_comments filename lines j (omega arith) unclosed) refl
      | inr full ↦
          elim ((remove_multi_line_comments-IsCleared filename lines).each j (omega arith)) [
            | inl same ↦ rw same refl
            | inr cleared ↦ rw (cleared, full) refl
          ]
    ]
