-- ===== src/Lint/Expression/Scan.antt =====
-- The scan of a line by `FindEndOfExpressionInLine` of tools/cpplint.py.
use native.Mathlib.Decide.{dec_lt, ℕ_discrete}
use optimer.Prelude.{[], arith, none, some, suc, take, zero, ℕ, ◌++◌, ◌+◌, ◌<◌, ◌∷◌, ◌≡◌, ◌≢◌, ◌≤◌}
use optimer.Text.{Text}
use optimer.Lint.Expression.{count_code, end_from}

pub count_code-append :
    (c : ℕ) (s t : Text) → count_code c (s ++ t) ≡ count_code c s + count_code c t
unfolding count_code
count_code-append c [] t = omega arith
count_code-append c (x ∷ s) t = omega (arith, count_code-append c s t)

-- Position `p` of the line is the first behind its start at which the depth is 0, where `opens` and
-- `closes` brackets stand before `text`: up to it more brackets are open than closed.
pub record IsFirstZero (startchar endchar opens closes : ℕ) (text : Text) (p : ℕ) : Type 0 where
  pub past : 0 < p
  pub depth : opens + count_code startchar (take p text) ≡ closes + count_code endchar (take p text)
  pub open_before :
      (j : ℕ)
      → 0 < j
      → j < p
      → closes + count_code endchar (take j text) < opens + count_code startchar (take j text)

module _ (startchar endchar : ℕ) (differ : startchar ≢ endchar) where
  IsFirstZero-later :
      (c opens closes opens' closes' : ℕ) (s : Text) (k : ℕ)
      → opens' ≡ opens + count_code startchar (c ∷ [])
      → closes' ≡ closes + count_code endchar (c ∷ [])
      → closes' < opens'
      → IsFirstZero startchar endchar opens' closes' s k
      → IsFirstZero startchar endchar opens closes (c ∷ s) (suc k)
  unfolding count_code
  IsFirstZero-later c opens closes opens' closes' s k a b d z = record {
    past = omega arith;
    depth = omega (arith, z.depth);
    open_before = later;
  }
    where
      later :
          (j : ℕ)
          → 0 < j
          → j < suc k
          → closes + count_code endchar (take j (c ∷ s))
            < opens + count_code startchar (take j (c ∷ s))
      later zero p q = absurd (omega arith)
      later (suc zero) p q = omega arith
      later (suc (suc j)) p q = omega (arith, z.open_before (suc j) (omega arith) (omega arith))

  -- Where the scan ends at a position, the depth is 0 there for the first time.
  pub end_from-eq-some :
      (i opens closes : ℕ) (s : Text) (p : ℕ)
      → closes < opens
      → end_from startchar endchar i opens closes s ≡ some p
      → (k : ℕ) × (p ≡ i + k) × IsFirstZero startchar endchar opens closes s k
  unfolding end_from count_code
  end_from-eq-some i opens closes [] p d h = cc
  end_from-eq-some i opens closes (c ∷ s) p d h = elim (ℕ_discrete c startchar) [
    | yes e ↦
        let (k, at, b) =
          end_from-eq-some (i + 1) (opens + 1) closes s p (omega arith) (ground (arith, h)) in
        (
          suc k,
          omega arith,
          IsFirstZero-later c opens closes (opens + 1) closes s k (ground arith) (ground arith)
              (omega arith) b,
        )
    | no e ↦ elim (ℕ_discrete c endchar) [
      | yes e' ↦ elim (ℕ_discrete opens (closes + 1)) [
        | yes z ↦ (
          1,
          ground (arith, h),
          record {
            past = omega arith;
            depth = ground (arith, z);
            open_before = λ j a b. absurd (omega arith);
          },
        )
        | no z ↦
            let (k, at, b) =
              end_from-eq-some (i + 1) opens (closes + 1) s p (omega arith) (ground (arith, h)) in
            (
              suc k,
              omega arith,
              IsFirstZero-later c opens closes opens (closes + 1) s k (ground arith) (ground arith)
                  (omega arith) b,
            )
      ]
      | no e' ↦
          let (k, at, b) = end_from-eq-some (i + 1) opens closes s p d (ground (arith, h)) in
          (
            suc k,
            omega arith,
            IsFirstZero-later c opens closes opens closes s k (ground arith) (ground arith) d b,
          )
    ]
  ]

  -- the scan that begins at the opening bracket
  pub end_from-bracket :
      (i : ℕ) (s : Text) (p : ℕ)
      → end_from startchar endchar i 0 0 (startchar ∷ s) ≡ some p
      → (k : ℕ) × (p ≡ i + k) × IsFirstZero startchar endchar 0 0 (startchar ∷ s) k
  unfolding end_from count_code
  end_from-bracket i s p h =
      let (k, at, b) = end_from-eq-some (i + 1) 1 0 s p (omega arith) (ground (arith, h)) in
      (
        suc k,
        omega arith,
        IsFirstZero-later startchar 0 0 1 0 s k (ground arith) (ground arith) (omega arith) b,
      )

  -- A depth that is above 0 and ends at or below 0 is 0 on the way.
  pub end_from-ne-none :
      (i opens closes : ℕ) (s : Text)
      → closes < opens
      → opens + count_code startchar s ≤ closes + count_code endchar s
      → end_from startchar endchar i opens closes s ≢ none
  unfolding end_from count_code
  end_from-ne-none i opens closes [] h e = absurd (omega arith)
  end_from-ne-none i opens closes (c ∷ s) h e = ground (
    arith,
    end_from-ne-none (i + 1) (opens + 1) closes s,
    end_from-ne-none (i + 1) opens (closes + 1) s,
    end_from-ne-none (i + 1) opens closes s,
  )

  -- A bracket that the scan of its own line leaves open opens more than the line closes.
  pub open_after_line :
      (i : ℕ) (s : Text)
      → end_from startchar endchar i 0 0 (startchar ∷ s) ≡ none
      → count_code endchar (startchar ∷ s) < count_code startchar (startchar ∷ s)
  unfolding end_from count_code
  open_after_line i s h = elim (dec_lt (count_code endchar s) (1 + count_code startchar s)) [
    | yes p ↦ ground (arith, p)
    | no p ↦ absurd (end_from-ne-none (i + 1) 1 0 s (omega arith) (omega arith) (ground (arith, h)))
  ]
