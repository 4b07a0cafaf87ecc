-- ===== src/Managed.antt =====
-- include/cpprealm/managed_numeric.hpp: managed numbers and enumerations, as columns of an object.
--
-- An object gives each column a value, `none` for null. The arithmetic of `int64_t` and `double` is the
-- compiler's: a parameter. An operator of a managed number that belongs to a query changes the shared
-- `rbool` and returns a copy of it; any other compares the stored value.
pub mod Updates
pub mod Comparisons
pub mod Text
pub mod Decimal
pub mod Binary
pub mod Variant
mod Tests
use realm_cpp.Prelude.{
  ℕ, List, [], ◌∷◌, Bool, true, false, not, ◌||◌, Option, none, some, ◌==◌, if◌then◌else◌,
}
use realm_cpp.Prelude.Attempts.{Attempt, completed, threw, undefined, and_then}
use realm_cpp.Query.{
  Comparison, Core, Root, Rbool, boolean, comparison, copy, equal, not_equal, greater, less,
  greater_equal, less_equal,
}

-- The operations of the macro's `type`.
pub record Arithmetic {ℓ} (T : Type ℓ) : Type ℓ where
  pub add : T → T → T
  pub subtract : T → T → T
  pub multiply : T → T → T
  pub divide : T → T → T
  -- Whether each is defined: `int64_t` has overflows and the division by 0.
  pub add_defined : T → T → Bool
  pub subtract_defined : T → T → Bool
  pub multiply_defined : T → T → Bool
  pub divide_defined : T → T → Bool
  pub one : T
  pub equals : T → T → Bool
  pub is_less : T → T → Bool

abbrev pub Columns {ℓ} : Type ℓ → Type ℓ
Columns T = ℕ → Option T

-- `m_obj->set(key, v)`
abbrev pub store {ℓ} : {T : Type ℓ} → ℕ → T → Columns T → Columns T
store key v obj k = if k == key then some v else obj k

-- The operators that write, by the macro CPP_REALM_MANAGED_OPTIONAL_NUMERIC.
pub data Update {ℓ} (T : Type ℓ) : Type ℓ where
  plus_assign minus_assign times_assign times over : T → Update T
  increment decrement : Update T

module _ {ℓ} {T : Type ℓ} (a : Arithmetic T) where
  open a use {add, subtract, multiply, divide, one, equals, is_less}

  unfoldable pub updated : Update T → T → T
  updated (plus_assign o) old_val = add old_val o
  updated (minus_assign o) old_val = subtract old_val o
  updated (times_assign o) old_val = multiply old_val o
  updated (times o) old_val = multiply old_val o
  updated (over o) old_val = divide old_val o
  updated increment old_val = add old_val one
  updated decrement old_val = subtract old_val one

  pub is_defined : Update T → T → Bool
  is_defined (plus_assign o) old_val = a.add_defined old_val o
  is_defined (minus_assign o) old_val = a.subtract_defined old_val o
  is_defined (times_assign o) old_val = a.multiply_defined old_val o
  is_defined (times o) old_val = a.multiply_defined old_val o
  is_defined (over o) old_val = a.divide_defined old_val o
  is_defined increment old_val = a.add_defined old_val one
  is_defined decrement old_val = a.subtract_defined old_val one

  -- An operator of managed<std::optional<type>>: `threw` is the exception for a null value, and
  -- `undefined` an overflow of `int64_t` or a division by 0.
  pub update : ℕ → Update T → Columns T → Attempt (Columns T)
  unfolding is_defined
  update key u obj = elim (obj key) [
    | none ↦ threw
    | some old_val ↦
        if is_defined u old_val then completed (store key (updated u old_val) obj) else undefined
  ]

  -- Several of them, on the columns named beside.
  pub update_all : List (ℕ × Update T) → Columns T → Attempt (Columns T)
  update_all [] obj = completed obj
  update_all ((key, u) ∷ us) obj = and_then (update key u obj) (update_all us)

  -- The comparison of the detached value.
  unfoldable pub compared : Comparison → T → T → Bool
  compared equal v rhs = equals v rhs
  compared not_equal v rhs = not (equals v rhs)
  compared greater v rhs = is_less rhs v
  compared less v rhs = is_less v rhs
  compared greater_equal v rhs = is_less rhs v || equals v rhs
  compared less_equal v rhs = is_less v rhs || equals v rhs

-- The test that the query is given by an operator of managed<T> for an enumeration.
unfoldable pub enum_test : Comparison → Comparison
enum_test equal = equal
enum_test not_equal = not_equal
enum_test greater = greater
enum_test less = greater
enum_test greater_equal = greater_equal
enum_test less_equal = less_equal

module _ (core : Core) (a : Arithmetic core.Value) where
  -- The operators ==, !=, >, <, >= and <= of managed<int64_t> and of managed<double>, on a stored
  -- value: the result, and the shared `rbool` afterwards.
  pub compare_numeric :
      Comparison
      → core.Column
      → core.Value
      → core.Value
      → Option (Root core)
      → Rbool core × Option (Root core)
  compare_numeric op m_key stored rhs none = (boolean (compared a op stored rhs), none)
  compare_numeric op m_key stored rhs (some q) = (
    copy core (comparison core op m_key (some rhs) q),
    some (comparison core op m_key (some rhs) q),
  )

  -- The same operators for an enumeration.
  pub compare_enum :
      Comparison
      → core.Column
      → core.Value
      → core.Value
      → Option (Root core)
      → Rbool core × Option (Root core)
  compare_enum op m_key stored rhs none = (boolean (compared a op stored rhs), none)
  compare_enum op m_key stored rhs (some q) = (
    copy core (comparison core (enum_test op) m_key (some rhs) q),
    some (comparison core (enum_test op) m_key (some rhs) q),
  )
