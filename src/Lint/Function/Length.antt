-- ===== src/Lint/Function/Length.antt =====
-- The reports of `_FunctionState.Check` in tools/cpplint.py.
use native.Mathlib.Decide.{dec_lt}
use native.Mathlib.Nat.{div-add-mod, pow-suc}
use optimer.Prelude.{
  Bool-cases, arith, inl, inr, ltb, ltb→le, ltb→lt, suc, zero, ℕ, ◌*◌, ◌/◌, ◌<◌, ◌^◌, ◌≡◌, ◌≤◌,
}
use optimer.Lint.Function.{base_trigger, error_level, log2, log2_from}
use optimer.Text.{Text}

log2_from_bounds :
    (fuel n : ℕ) → 0 < n → n ≤ fuel → (2 ^ log2_from fuel n ≤ n) × (n < 2 ^ suc (log2_from fuel n))
unfolding log2_from
log2_from_bounds zero n h f = absurd (omega arith)
log2_from_bounds (suc fuel) n h f = elim (Bool-cases (ltb n 2)) [
  | inl small ↦ rw small (ground arith)
  | inr large ↦ rw large (
      let ih = log2_from_bounds fuel (n / 2) (ground arith) (ground arith) in
      (
        omega (arith, ih, pow-suc 2 (log2_from fuel (n / 2))),
        omega (
          arith,
          ih,
          pow-suc 2 (log2_from fuel (n / 2)),
          pow-suc 2 (suc (log2_from fuel (n / 2))),
        ),
      ))
]

log2_bounds : (n : ℕ) → 0 < n → (2 ^ log2 n ≤ n) × (n < 2 ^ suc (log2 n))
unfolding log2
log2_bounds n h = log2_from_bounds n n h (omega arith)

base_trigger_pos : (function : Text) → 0 < base_trigger function
unfolding base_trigger
base_trigger_pos function = ground arith

pow2_pos : (n : ℕ) → 0 < 2 ^ n
pow2_pos zero = omega arith
pow2_pos (suc n) = omega (arith, pow2_pos n, pow-suc 2 n)

pow2_mono : (a b : ℕ) → a < b → 2 * 2 ^ a ≤ 2 ^ b
pow2_mono a zero h = absurd (omega arith)
pow2_mono a (suc b) h = elim (dec_lt a b) [
  | yes p ↦ omega (arith, pow2_mono a b p, pow-suc 2 b)
  | no p ↦ let e : a ≡ b = omega arith in rw e (omega (arith, pow-suc 2 b))
]

le_div : (b x n : ℕ) → 0 < b → b * x ≤ n → x ≤ n / b
le_div b x n pos h = grind (arith, div-add-mod)

mul_le : (b x n : ℕ) → x ≤ n / b → b * x ≤ n
mul_le b x n h = grind (arith, div-add-mod)

lt_mul : (b x n : ℕ) → 0 < b → n / b < x → n < b * x
lt_mul b x n pos h = grind (arith, div-add-mod)

-- A body above the trigger of a verbosity of at most 5 has an error level that reaches this
-- verbosity and is at most 5. A level below 5 is the number of times that the trigger of
-- verbosity 0 fits into the length by doubling.
pub error_level_bounds :
    (base verbose_level lines : ℕ)
    → 0 < base
    → verbose_level ≤ 5
    → base * 2 ^ verbose_level < lines
    → (verbose_level ≤ error_level lines base)
      × (error_level lines base ≤ 5)
      × (base * 2 ^ error_level lines base ≤ lines)
      × (error_level lines base < 5 → lines < base * 2 ^ suc (error_level lines base))
unfolding error_level
error_level_bounds base verbose_level lines pos v h =
    let q = lines / base in
    let fits : 2 ^ verbose_level ≤ q = le_div base _ lines pos (omega arith) in
    let (low, high) = log2_bounds q (omega (arith, pow2_pos verbose_level)) in
    let reaches : verbose_level ≤ log2 q = elim (dec_lt (log2 q) verbose_level) [
      | yes p ↦ absurd (omega (arith, pow2_mono (log2 q) verbose_level p, pow-suc 2 (log2 q)))
      | no p ↦ omega arith
    ] in
    elim (Bool-cases (ltb 5 (log2 q))) [
      | inl big ↦ rw big (
        v,
        omega arith,
        mul_le base _ lines (omega (arith, low, pow2_mono 5 (log2 q) (ltb→lt 5 (log2 q) big))),
        λ p. absurd (omega arith),
      )
      | inr small ↦ rw small (
        reaches,
        ltb→le 5 (log2 q) small,
        mul_le base _ lines low,
        λ p. lt_mul base _ lines pos high,
      )
    ]
