-- ===== src/Lint/SameModule/Prefix.antt =====
-- The prefix that `FilesBelongToSameModule` of tools/cpplint.py returns.
use mathlib.Core.List.{reverse-append}
use optimer.Prelude.{
  Bool, Bool-cases, [], ap, arith, false, inl, inr, length-append, refl, sym, take, take-append,
  true, ℕ, ◌++◌, ◌↔◌, ◌∙◌, ◌∷◌, ◌≡◌, ◌≢◌,
}
use optimer.Text.{Text, codes, ends_with, starts_with}
use optimer.Text.Laws.{ends_with-append, ends_with→append}
use optimer.Lint.SameModule.{
  common_path, files_belong_to_same_module, one_tree, stem_cc, stem_h, without_end, without_inl,
  without_test,
}

common_path-append : (t p : Text) → p ≢ [] → common_path (t ++ p) p ≡ t
unfolding common_path
common_path-append t [] h = absurd (h refl)
common_path-append t (c ∷ p) h =
    ap (λ (n : ℕ). take n (t ++ c ∷ p)) (omega (arith, length-append t (c ∷ p)))
    ∙ take-append t (c ∷ p)

same_module_iff :
    (filename_cc filename_h prefix : Text)
    → (ends_with filename_h (codes ".h") ≡ true → stem_h filename_h ≢ [])
    → (files_belong_to_same_module filename_cc filename_h ≡ (true, prefix)) ↔ (
        (ends_with filename_cc (codes ".cc") ≡ true)
        × (ends_with filename_h (codes ".h") ≡ true)
        × (stem_cc filename_cc ≡ prefix ++ stem_h filename_h))
unfolding files_belong_to_same_module
same_module_iff filename_cc filename_h prefix named = (
  λ h. elim (Bool-cases (ends_with filename_cc (codes ".cc"))) [
    | inr other ↦ cc (rw (files_belong_to_same_module, other) at h)
    | inl is_cc ↦ elim (Bool-cases (ends_with filename_h (codes ".h"))) [
      | inr other ↦ cc (rw (files_belong_to_same_module, is_cc, other) at h)
      | inl is_h ↦ elim (Bool-cases (ends_with (stem_cc filename_cc) (stem_h filename_h))) [
        | inr other ↦ cc (rw (files_belong_to_same_module, is_cc, is_h, other) at h)
        | inl same ↦
            let (t, e) = ends_with→append (stem_cc filename_cc) (stem_h filename_h) same in
            let found : common_path (stem_cc filename_cc) (stem_h filename_h) ≡ prefix =
              ap (λ (r : Bool × Text). r.1)
                (rw (files_belong_to_same_module, is_cc, is_h, same) at h) in
            let is_prefix : t ≡ prefix =
              sym (common_path-append t (stem_h filename_h) (named is_h))
              ∙ ap (λ (u : Text). common_path u (stem_h filename_h)) (sym e)
              ∙ found in
            (is_cc, is_h, e ∙ ap (λ (u : Text). u ++ stem_h filename_h) is_prefix)
      ]
    ]
  ],
  λ h.
      let (is_cc, is_h, splits) = h in
      rw
        (
          files_belong_to_same_module,
          is_cc,
          is_h,
          splits,
          ends_with-append prefix (stem_h filename_h),
          common_path-append prefix (stem_h filename_h) (named is_h),
        )
        refl,
)

without_end-append : (t p : Text) → without_end (t ++ p) p ≡ t
without_end-append t p =
    ap (λ (n : ℕ). take n (t ++ p)) (omega (arith, length-append t p)) ∙ take-append t p

-- The text is a stem with the ending of a test, or without one.
pub data IsStem (s u : Text) : Type 0 where
  unittest : s ≡ u ++ codes "_unittest" → IsStem s u
  test : s ≡ u ++ codes "_test" → IsStem s u
  plain :
      s ≡ u
      → ((t : Text) → s ≢ t ++ codes "_unittest")
      → ((t : Text) → s ≢ t ++ codes "_test")
      → IsStem s u

-- The text is a stem with `-inl`, or without it.
pub data IsHeaderStem (s w : Text) : Type 0 where
  inline : s ≡ w ++ codes "-inl" → IsHeaderStem s w
  declared : s ≡ w → ((t : Text) → s ≢ t ++ codes "-inl") → IsHeaderStem s w

no_end : (s p : Text) → ((t : Text) → s ≢ t ++ p) → ends_with s p ≡ false
no_end s p h = elim (Bool-cases (ends_with s p)) [
  | inl ends ↦ let (t, e) = ends_with→append s p ends in absurd (h t e)
  | inr other ↦ other
]

has_end : (s p : Text) → ends_with s p ≡ false → (t : Text) → s ≢ t ++ p
has_end s p h t e = cc (rw e at h, ends_with-append t p)

test_no_unittest : (u : Text) → ends_with (u ++ codes "_test") (codes "_unittest") ≡ false
unfolding ends_with starts_with
test_no_unittest u = rw (reverse-append u (codes "_test")) refl

without_test_lem : (s u : Text) → IsStem s u → without_test s ≡ u
unfolding without_test
without_test_lem s u (unittest e) =
    rw (e, without_test, ends_with-append u (codes "_unittest"))
      (without_end-append u (codes "_unittest"))
without_test_lem s u (test e) =
    rw (e, without_test, test_no_unittest u, ends_with-append u (codes "_test"))
      (without_end-append u (codes "_test"))
without_test_lem s u (plain e h k) =
    rw (without_test, no_end s (codes "_unittest") h, no_end s (codes "_test") k) e

without_test-IsStem : (s : Text) → IsStem s (without_test s)
unfolding without_test
without_test-IsStem s = elim (Bool-cases (ends_with s (codes "_unittest"))) [
  | inl ends ↦
      let (u, e) = ends_with→append s (codes "_unittest") ends in
      unittest (rw (e, without_test_lem (u ++ codes "_unittest") u (unittest refl)) refl)
  | inr other ↦ elim (Bool-cases (ends_with s (codes "_test"))) [
    | inl ends ↦
        let (u, e) = ends_with→append s (codes "_test") ends in
        test (rw (e, without_test_lem (u ++ codes "_test") u (test refl)) refl)
    | inr neither ↦
        plain (rw (without_test, other, neither) refl) (has_end s (codes "_unittest") other)
          (has_end s (codes "_test") neither)
  ]
]

without_inl_lem : (s w : Text) → IsHeaderStem s w → without_inl s ≡ w
unfolding without_inl
without_inl_lem s w (inline e) =
    rw (e, without_inl, ends_with-append w (codes "-inl")) (without_end-append w (codes "-inl"))
without_inl_lem s w (declared e h) = rw (without_inl, no_end s (codes "-inl") h) e

without_inl-IsHeaderStem : (s : Text) → IsHeaderStem s (without_inl s)
unfolding without_inl
without_inl-IsHeaderStem s = elim (Bool-cases (ends_with s (codes "-inl"))) [
  | inl ends ↦
      let (w, e) = ends_with→append s (codes "-inl") ends in
      inline (rw (e, without_inl_lem (w ++ codes "-inl") w (inline refl)) refl)
  | inr other ↦ declared (rw (without_inl, other) refl) (has_end s (codes "-inl") other)
]

-- The files have stems, and that of the source file, moved to one tree, is the prefix and that of
-- the header, moved likewise.
pub record IsModule (filename_cc filename_h prefix : Text) : Type 0 where
  pub name_cc : Text
  pub name_h : Text
  pub stem_of_cc : Text
  pub stem_of_h : Text
  pub is_cc : filename_cc ≡ name_cc ++ codes ".cc"
  pub is_h : filename_h ≡ name_h ++ codes ".h"
  pub without_test_end : IsStem name_cc stem_of_cc
  pub without_inl_end : IsHeaderStem name_h stem_of_h
  pub opens : one_tree stem_of_cc ≡ prefix ++ one_tree stem_of_h

stem_cc-append : (s u : Text) → IsStem s u → stem_cc (s ++ codes ".cc") ≡ one_tree u
unfolding stem_cc
stem_cc-append s u h =
    ap (λ (t : Text). one_tree (without_test t)) (without_end-append s (codes ".cc"))
    ∙ ap one_tree (without_test_lem s u h)

pub stem_h-append : (s w : Text) → IsHeaderStem s w → stem_h (s ++ codes ".h") ≡ one_tree w
unfolding stem_h
stem_h-append s w h =
    ap (λ (t : Text). one_tree (without_inl t)) (without_end-append s (codes ".h"))
    ∙ ap one_tree (without_inl_lem s w h)

-- Where the stem of the header is not empty in one tree, the files belong to one module with a
-- prefix exactly when they end in `.cc` and `.h`, and the name of the source file, without
-- `_unittest` or `_test`, is the prefix and the name of the header, without `-inl`; in both names
-- `/public/` and `/internal/` are replaced by `/` first.
pub files_belong_to_same_module_iff :
    (filename_cc filename_h prefix : Text)
    → ((s w : Text) → filename_h ≡ s ++ codes ".h" → IsHeaderStem s w → one_tree w ≢ [])
    → (files_belong_to_same_module filename_cc filename_h ≡ (true, prefix))
      ↔ IsModule filename_cc filename_h prefix
files_belong_to_same_module_iff filename_cc filename_h prefix named =
    let stem_named : ends_with filename_h (codes ".h") ≡ true → stem_h filename_h ≢ [] =
      λ ends empty.
        let (s, e) = ends_with→append filename_h (codes ".h") ends in
        let stem = without_inl-IsHeaderStem s in
        named s (without_inl s) e stem
          (sym (stem_h-append s (without_inl s) stem) ∙ ap stem_h (sym e) ∙ empty) in
    let (to, from) = same_module_iff filename_cc filename_h prefix stem_named in
    (
      λ h.
          let (ends_cc, ends_h, splits) = to h in
          let (s, e) = ends_with→append filename_cc (codes ".cc") ends_cc in
          let (s', e') = ends_with→append filename_h (codes ".h") ends_h in
          let stem = without_test-IsStem s in
          let stem' = without_inl-IsHeaderStem s' in
          record {
            name_cc = s;
            name_h = s';
            stem_of_cc = without_test s;
            stem_of_h = without_inl s';
            is_cc = e;
            is_h = e';
            without_test_end = stem;
            without_inl_end = stem';
            opens =
                sym (stem_cc-append s (without_test s) stem)
                ∙ ap stem_cc (sym e)
                ∙ splits
                ∙ ap (λ (t : Text). prefix ++ stem_h t) e'
                ∙ ap (λ (t : Text). prefix ++ t) (stem_h-append s' (without_inl s') stem');
          },
      λ m. from (
        rw m.is_cc (ends_with-append m.name_cc (codes ".cc")),
        rw m.is_h (ends_with-append m.name_h (codes ".h")),
        ap stem_cc m.is_cc
            ∙ stem_cc-append m.name_cc m.stem_of_cc m.without_test_end
            ∙ m.opens
            ∙ ap (λ (t : Text). prefix ++ t)
                (sym (stem_h-append m.name_h m.stem_of_h m.without_inl_end))
            ∙ ap (λ (t : Text). prefix ++ stem_h t) (sym m.is_h),
      ),
    )
