-- ===== src/Lint/Style/Width.antt =====
-- `GetLineWidth` of tools/cpplint.py and the limit on the width, for lines of ASCII.
use optimer.Prelude.{
  Bool, Bool-cases, List, Option, [], arith, false, if◌then◌else◌, inl, inr, length, le→ltb, ltb,
  ltb→le, ltb→lt, refl, true, ℕ, ◌<◌, ◌↔◌, ◌∷◌, ◌≡◌, ◌≤◌, ◌⊎◌,
}
use optimer.Text.{Text}
use optimer.Lint.Style.{UnicodeData, get_line_width, length_events, may_be_long, width_of}
use optimer.Lint.Event.{Event, complain_iff}

abbrev pub IsAscii : Text → Type 0
IsAscii [] = Unit
IsAscii (c ∷ s) = (c < 128) × IsAscii s

-- What Unicode says of the codes below 128: they normalize to themselves, and none is wide or
-- combining.
pub record PlainAscii (unicode : UnicodeData) : Type 0 where
  pub normalized : (s : Text) → IsAscii s → unicode.normalize s ≡ s
  pub not_wide : (c : ℕ) → c < 128 → unicode.is_wide c ≡ false
  pub not_combining : (c : ℕ) → c < 128 → unicode.is_combining c ≡ false

-- one limit behind another
limits :
    (may : Bool) (w : ℕ) (severe : Event) (mild : List Event)
    → (mild ≡ []) ↔ (ltb 80 w ≡ false)
    → ((if may then [] else if ltb 100 w then severe ∷ [] else mild) ≡ [])
      ↔ ((may ≡ true) ⊎ (w ≤ 80))
limits true w severe mild h = (λ e. inl refl, λ e. refl)
limits false w severe mild h = elim (Bool-cases (ltb 100 w)) [
  | inl over ↦ rw over (λ e. absurd (cc e), λ e. absurd (not_long e over))
  | inr under ↦ rw under (λ e. inr (ltb→le 80 w (h.0 e)), λ e. h.1 (le→ltb 80 w (short e)))
]
  where
    short : {n : ℕ} → (false ≡ true) ⊎ (n ≤ 80) → n ≤ 80
    short (inl e) = absurd (cc e)
    short (inr e) = e

    not_long : {n : ℕ} → (false ≡ true) ⊎ (n ≤ 80) → ltb 100 n ≡ true → ⊥
    not_long {n} e over = omega (arith, short e, ltb→lt 100 n over)

module _ (unicode : UnicodeData) (plain : PlainAscii unicode) where
  width_of-length : (s : Text) → IsAscii s → width_of unicode s ≡ length s
  unfolding width_of
  width_of-length [] h = refl
  width_of-length (c ∷ s) h =
      rw (plain.not_wide c h.0, plain.not_combining c h.0, width_of-length s h.1) (omega arith)

  get_line_width-length : (s : Text) → IsAscii s → get_line_width unicode s ≡ length s
  unfolding get_line_width
  get_line_width-length s h = rw (get_line_width, plain.normalized s h) (width_of-length s h)

  -- On Unicode data that leaves ASCII as it is, and for a line of ASCII: the check of the width
  -- reports nothing exactly when the line is one that may be long, or has at most 80 codes.
  pub length_events_iff :
      (filename : Text) (linenum : ℕ) (cppvar : Option Text) (line : Text)
      → IsAscii line
      → (length_events unicode filename linenum cppvar line ≡ [])
        ↔ ((may_be_long cppvar line ≡ true) ⊎ (length line ≤ 80))
  unfolding length_events
  length_events_iff filename linenum cppvar line h =
      rw (length_events, get_line_width-length line h)
        (limits (may_be_long cppvar line) (length line) _ _
          (complain_iff filename linenum (ltb 80 (length line)) _ _ _))
