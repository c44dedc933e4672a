-- ===== src/Result.antt =====
-- The exceptions that tools/*.py raise, and a result that may be one.
use optimer.Prelude.{refl, ◌≡◌}
use optimer.Text.{Text}

pub data PyError : Type 0 where
  key_error : Text → PyError
  type_error : PyError
  name_error : Text → PyError
  zero_division_error : PyError

pub data Result {ℓ} (A : Type ℓ) : Type ℓ where
  raised : PyError → Result A
  ok : A → Result A

-- The rest of a function body is skipped where an exception is raised.
module _ {ℓ κ} {A : Type ℓ} {B : Type κ} where
  infixl 5 ◌>>=◌
  abbrev pub ◌>>=◌ : Result A → (A → Result B) → Result B
  raised e >>= rest = raised e
  ok a >>= rest = rest a

  -- A body that returns has returned from its first part.
  pub >>=-eq-ok :
      (first : Result A) (rest : A → Result B) {b : B}
      → first >>= rest ≡ ok b
      → (a : A) × (first ≡ ok a) × (rest a ≡ ok b)
  >>=-eq-ok (raised e) rest returned = cc
  >>=-eq-ok (ok a) rest returned = (a, refl, returned)

pub ok_injective {ℓ} : {A : Type ℓ} {a b : A} → ok a ≡ ok b → a ≡ b
ok_injective same = cc
