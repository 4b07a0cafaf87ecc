-- ===== src/Managed/Decimal.antt =====
-- src/cpprealm/managed_decimal.cpp: the arithmetic of managed decimals, by its four macros.
--
-- The bridge's decimal arithmetic is a parameter. `none` is the exception for a null value.
pub mod Laws
mod Tests
use realm_cpp.Prelude.{ℕ, ◌==◌, Option, none, some, if◌then◌else◌}
use realm_cpp.Managed.{Arithmetic, Columns, store}

-- The macros' `op`, or `arithmetic_op`.
pub data Operator : Type 0 where
  plus minus times divided_by : Operator

module _ {ℓ} {T : Type ℓ} (a : Arithmetic T) where
  unfoldable pub applied : Operator → T → T → T
  applied plus x y = a.add x y
  applied minus x y = a.subtract x y
  applied times x y = a.multiply x y
  applied divided_by x y = a.divide x y

  -- managed_decimal_arithmetic, on columns that are never null: the result, and the object.
  pub decimal_arithmetic : Operator → ℕ → T → (ℕ → T) → T × (ℕ → T)
  decimal_arithmetic op key o obj =
      let new_val = applied op (obj key) o in (new_val, λ k. if k == key then new_val else obj k)

  -- managed_decimal_arithmetic_assignment
  pub decimal_assignment : Operator → ℕ → T → (ℕ → T) → ℕ → T
  decimal_assignment op key o obj =
      let new_val = applied op (obj key) o in λ k. if k == key then new_val else obj k

  -- managed_optional_decimal_arithmetic
  pub optional_arithmetic : Operator → ℕ → T → Columns T → Option (T × Columns T)
  optional_arithmetic op key o obj = elim (obj key) [
    | none ↦ none
    | some old_val ↦ some (applied op old_val o, store key (applied op old_val o) obj)
  ]

  -- managed_optional_decimal_arithmetic_assignment
  pub optional_assignment : Operator → ℕ → T → Columns T → Option (Columns T)
  optional_assignment op key o obj = elim (obj key) [
    | none ↦ none
    | some old_val ↦ some (store key (applied op old_val o) obj)
  ]
