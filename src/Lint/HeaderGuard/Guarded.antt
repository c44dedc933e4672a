-- ===== src/Lint/HeaderGuard/Guarded.antt =====
-- When `CheckForHeaderGuard` of tools/cpplint.py is content.
use optimer.Prelude.{
  Bool, Bool-cases, List, Option, [], ap, false, if◌then◌else◌, inl, inr, none, refl, some, sym,
  true, ℕ, ◌&&◌, ◌++◌, ◌+◌, ◌↔◌, ◌∙◌, ◌∷◌, ◌≡◌, ◌≢◌,
}
use optimer.Text.{Text, codes, starts_with, text_eq}
use optimer.Text.Unicode.{unicode_words}
use optimer.Text.Laws.{text_eq_refl, text_eq→≡}
use optimer.Lint.HeaderGuard.{
  GuardLines, check_endif, check_for_header_guard, check_guard, check_ifndef, guard_lines, is_text,
  is_unset, no_guard, see_endif, see_words,
}

append_one-ne-nil {ℓ} : {A : Type ℓ} (xs : List A) (y : A) → xs ++ y ∷ [] ≢ []
append_one-ne-nil [] y h = cc
append_one-ne-nil (x ∷ xs) y h = cc

append-eq-nil {ℓ} : {A : Type ℓ} (xs ys : List A) → xs ++ ys ≡ [] → (xs ≡ []) × (ys ≡ [])
append-eq-nil [] ys h = (refl, h)
append-eq-nil (x ∷ xs) ys h = cc

-- the second word of a line that begins with the word `key`
unfoldable pub name_behind : Text → List Text → Option Text
unfolding text_eq
name_behind key [] = none
name_behind key (w ∷ []) = none
name_behind key (w ∷ v ∷ ws) = if text_eq w key then some v else none

-- the name in the first line that has one behind `key`
unfoldable pub first_name : Text → List Text → Option Text
unfolding name_behind unicode_words
first_name key [] = none
first_name key (line ∷ lines) = elim (name_behind key (unicode_words line)) [
  | some v ↦ some v
  | none ↦ first_name key lines
]

-- the last line that begins with #endif
unfoldable pub last_endif : List Text → Option Text
unfolding starts_with
last_endif [] = none
last_endif (line ∷ lines) = elim (last_endif lines) [
  | some later ↦ some later
  | none ↦ if starts_with line (codes "#endif") then some line else none
]

-- The first #ifndef and the first #define have the name, and the last #endif line is the one wanted.
pub record IsGuarded (cppvar : Text) (lines : List Text) : Type 0 where
  pub by_ifndef : first_name (codes "#ifndef") lines ≡ some cppvar
  pub by_define : first_name (codes "#define") lines ≡ some cppvar
  pub by_endif : last_endif lines ≡ some (codes "#endif  // " ++ cppvar)

abbrev or_first : Option Text → Option Text → Option Text
or_first none o = o
or_first (some t) o = some t

-- a later text takes the place of the one before it
abbrev or_last : Option Text → Option Text → Option Text
or_last o none = o
or_last o (some t) = some t

set_first :
    (o : Option Text) (b : Bool) (v : Text)
    → (if is_unset o && b then some v else o) ≡ or_first o (if b then some v else none)
set_first none true v = refl
set_first none false v = refl
set_first (some t) b v = refl

or_first-none : (o : Option Text) → or_first o none ≡ o
or_first-none none = refl
or_first-none (some t) = refl

or_first_assoc :
    (a b c : Option Text)
    → or_first (or_first a b) c ≡ or_first a (elim b [ some v ↦ some v | none ↦ c ])
or_first_assoc none none c = refl
or_first_assoc none (some v) c = refl
or_first_assoc (some t) b c = refl

ifndef-see_words :
    (n : ℕ) (ws : List Text) (g : GuardLines)
    → (see_words n ws g).ifndef ≡ or_first g.ifndef (name_behind (codes "#ifndef") ws)
unfolding see_words name_behind
ifndef-see_words n [] g = sym (or_first-none g.ifndef)
ifndef-see_words n (w ∷ []) g = sym (or_first-none g.ifndef)
ifndef-see_words n (w ∷ v ∷ ws) g = set_first g.ifndef (text_eq w (codes "#ifndef")) v

define-see_words :
    (n : ℕ) (ws : List Text) (g : GuardLines)
    → (see_words n ws g).define ≡ or_first g.define (name_behind (codes "#define") ws)
unfolding see_words name_behind
define-see_words n [] g = sym (or_first-none g.define)
define-see_words n (w ∷ []) g = sym (or_first-none g.define)
define-see_words n (w ∷ v ∷ ws) g = set_first g.define (text_eq w (codes "#define")) v

names-see_endif :
    (n : ℕ) (line : Text) (g : GuardLines)
    → ((see_endif n line g).ifndef ≡ g.ifndef) × ((see_endif n line g).define ≡ g.define)
unfolding see_endif
names-see_endif n line g = elim (Bool-cases (starts_with line (codes "#endif"))) [
  | inl ends ↦ rw (see_endif, ends) (refl, refl)
  | inr other ↦ rw (see_endif, other) (refl, refl)
]

endif-see_words : (n : ℕ) (ws : List Text) (g : GuardLines) → (see_words n ws g).endif ≡ g.endif
unfolding see_words
endif-see_words n [] g = refl
endif-see_words n (w ∷ []) g = refl
endif-see_words n (w ∷ v ∷ ws) g = refl

ifndef-guard_lines :
    (n : ℕ) (lines : List Text) (g : GuardLines)
    → (guard_lines n lines g).ifndef ≡ or_first g.ifndef (first_name (codes "#ifndef") lines)
unfolding guard_lines first_name
ifndef-guard_lines n [] g = sym (or_first-none g.ifndef)
ifndef-guard_lines n (line ∷ lines) g =
    let ws = unicode_words line in
    ifndef-guard_lines (n + 1) lines (see_endif n line (see_words n ws g))
    ∙ ap (λ (o : Option Text). or_first o (first_name (codes "#ifndef") lines))
        ((names-see_endif n line (see_words n ws g)).0 ∙ ifndef-see_words n ws g)
    ∙ or_first_assoc g.ifndef (name_behind (codes "#ifndef") ws)
        (first_name (codes "#ifndef") lines)

define-guard_lines :
    (n : ℕ) (lines : List Text) (g : GuardLines)
    → (guard_lines n lines g).define ≡ or_first g.define (first_name (codes "#define") lines)
unfolding guard_lines first_name
define-guard_lines n [] g = sym (or_first-none g.define)
define-guard_lines n (line ∷ lines) g =
    let ws = unicode_words line in
    define-guard_lines (n + 1) lines (see_endif n line (see_words n ws g))
    ∙ ap (λ (o : Option Text). or_first o (first_name (codes "#define") lines))
        ((names-see_endif n line (see_words n ws g)).1 ∙ define-see_words n ws g)
    ∙ or_first_assoc g.define (name_behind (codes "#define") ws)
        (first_name (codes "#define") lines)

or_last-endif :
    (o later : Option Text) (line : Text) (b : Bool)
    → or_last (if b then some line else o) later
      ≡ or_last o (elim later [ some l ↦ some l | none ↦ if b then some line else none ])
or_last-endif o (some l) line b = refl
or_last-endif o none line true = refl
or_last-endif o none line false = refl

endif-see_endif :
    (n : ℕ) (line : Text) (g : GuardLines)
    → (see_endif n line g).endif
      ≡ (if starts_with line (codes "#endif") then some line else g.endif)
unfolding see_endif
endif-see_endif n line g = elim (Bool-cases (starts_with line (codes "#endif"))) [
  | inl ends ↦ rw (see_endif, ends) refl
  | inr other ↦ rw (see_endif, other) refl
]

endif-guard_lines :
    (n : ℕ) (lines : List Text) (g : GuardLines)
    → (guard_lines n lines g).endif ≡ or_last g.endif (last_endif lines)
unfolding guard_lines last_endif
endif-guard_lines n [] g = refl
endif-guard_lines n (line ∷ lines) g =
    let seen = see_words n (unicode_words line) g in
    endif-guard_lines (n + 1) lines (see_endif n line seen)
    ∙ ap (λ (o : Option Text). or_last o (last_endif lines))
        (endif-see_endif n line seen
          ∙ ap (λ (o : Option Text). if starts_with line (codes "#endif") then some line else o)
              (endif-see_words n (unicode_words line) g))
    ∙ or_last-endif g.endif (last_endif lines) line (starts_with line (codes "#endif"))

or_last-none : (o : Option Text) → or_last none o ≡ o
or_last-none none = refl
or_last-none (some t) = refl

is_text→≡ : (t : Text) (o : Option Text) → is_text t o ≡ true → o ≡ some t
is_text→≡ t none h = cc
is_text→≡ t (some s) h = ap (λ (u : Text). some u) (text_eq→≡ s t h)

-- what the loop has kept, where the check is content
record Kept (cppvar : Text) (g : GuardLines) : Type 0 where
  kept_ifndef : g.ifndef ≡ some cppvar
  kept_define : g.define ≡ some cppvar
  kept_endif : g.endif ≡ some (codes "#endif  // " ++ cppvar)

module _ (filename : Text) (lines : List Text) (cppvar : Text) (g : GuardLines) where
  quiet_ifndef : (t : Text) → check_ifndef filename lines cppvar g t ≡ [] → text_eq t cppvar ≡ true
  unfolding check_ifndef
  quiet_ifndef t = elim (Bool-cases (text_eq t cppvar)) [
    | inl same ↦ λ h. same
    | inr other ↦ rw other λ h. absurd (append_one-ne-nil _ _ h)
  ]

  quiet_endif :
      check_endif filename lines cppvar g ≡ []
      → is_text (codes "#endif  // " ++ cppvar) g.endif ≡ true
  unfolding check_endif
  quiet_endif = elim (Bool-cases (is_text (codes "#endif  // " ++ cppvar) g.endif)) [
    | inl same ↦ λ h. same
    | inr other ↦ rw other λ h. absurd (append_one-ne-nil _ _ h)
  ]

  quiet_guard :
      (i d : Option Text)
      → g.ifndef ≡ i
      → g.define ≡ d
      → check_guard filename lines cppvar g i d ≡ []
      → Kept cppvar g
  unfolding check_guard
  quiet_guard none d e f h = cc
  quiet_guard (some i) none e f h = cc
  quiet_guard (some i) (some d) e f h =
      let (quiet_first, rest) = append-eq-nil (check_ifndef filename lines cppvar g i) _ h in
      let same = text_eq→≡ i cppvar (quiet_ifndef i quiet_first) in
      elim (Bool-cases (text_eq d i)) [
        | inl equal ↦
            let quiet_last : check_endif filename lines cppvar g ≡ [] = rw equal at rest in
            record {
              kept_ifndef = e ∙ ap (λ (u : Text). some u) same;
              kept_define = f ∙ ap (λ (u : Text). some u) (text_eq→≡ d i equal ∙ same);
              kept_endif = is_text→≡ _ g.endif (quiet_endif quiet_last);
            }
        | inr differ ↦ cc (rw differ at rest)
      ]

  guarded_quiet : Kept cppvar g → check_guard filename lines cppvar g g.ifndef g.define ≡ []
  unfolding check_guard check_ifndef check_endif
  guarded_quiet h = rw (h.kept_ifndef, h.kept_define, h.kept_endif, text_eq_refl cppvar)

-- A header draws no report, and adds no suppression, exactly when its first #ifndef and its first
-- #define have the name that the guard should have, and its last line that begins with #endif is
-- `#endif  // ` and this name.
pub check_for_header_guard_iff :
    (filename : Text) (lines : List Text) (cppvar : Text)
    → (check_for_header_guard filename lines cppvar ≡ []) ↔ IsGuarded cppvar lines
unfolding check_for_header_guard
check_for_header_guard_iff filename lines cppvar =
    let g = guard_lines 0 lines no_guard in
    let ifndef = ifndef-guard_lines 0 lines no_guard in
    let define = define-guard_lines 0 lines no_guard in
    let endif = endif-guard_lines 0 lines no_guard ∙ or_last-none (last_endif lines) in
    (
      λ h.
          let kept = quiet_guard filename lines cppvar g g.ifndef g.define refl refl h in
          record {
            by_ifndef = sym ifndef ∙ kept.kept_ifndef;
            by_define = sym define ∙ kept.kept_define;
            by_endif = sym endif ∙ kept.kept_endif;
          },
      λ h. guarded_quiet filename lines cppvar g record {
        kept_ifndef = ifndef ∙ h.by_ifndef;
        kept_define = define ∙ h.by_define;
        kept_endif = endif ∙ h.by_endif;
      },
    )
