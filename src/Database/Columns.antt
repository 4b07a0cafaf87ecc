-- ===== src/Database/Columns.antt =====
-- src/cpprealm/internal/bridge/obj.cpp: obj::set_list_values, with one overload for each type of value.
--
-- `convert` is the conversion of a value for realm-core. The list is the one that get_list gives for
-- the column; an insertion beyond its end throws, which is `none`.
pub mod Stored
mod Tests
use realm_cpp.Prelude.{ℕ, zero, suc, List, [], ◌∷◌, ◌++◌, Option, none, some}
use realm_cpp.Containers.Core.{CoreList}

-- What realm-core does with the list of a column: `insert` at an index, where null is a value too, and
-- Obj::set_list_values.
pub record CoreColumn {ℓ κ} (L : Type ℓ) (U : Type κ) : Type (ℓ ⊔ κ) where
  pub insert : ℕ → U → L → Option L
  pub null : U
  pub set_all : List U → L → L

-- The argument, by the overload that takes it: those that make a vector of realm-core's values of it,
-- those that pass it on as it is, the one for bool, the one for mixed, and the ones for optionals of
-- texts, keys, identifiers, bytes and timestamps.
pub data ListValues {ℓ} (T : Type ℓ) : Type ℓ where
  plain : List T → ListValues T
  numbers : List (Option T) → ListValues T
  bools : List T → ListValues T
  mixeds : List T → ListValues T
  optionals : List (Option T) → ListValues T

module _ {ℓ κ ι} {L : Type ℓ} {U : Type κ} {T : Type ι} (core : CoreList L U)
    (column : CoreColumn L U) (convert : T → U) where
  open column use {insert, null, set_all}

  -- `for (auto& v2 : values) v.push_back(v2);`
  pub pushed_values : List T → List U → List U
  pushed_values [] v = v
  pushed_values (v2 ∷ values) v = pushed_values values (v ++ convert v2 ∷ [])

  pub optional_value : Option T → U
  optional_value none = null
  optional_value (some t) = convert t

  -- A vector of optional numbers is one of realm-core's already.
  pub number_values : List (Option T) → List U
  unfolding optional_value
  number_values [] = []
  number_values (o ∷ values) = optional_value o ∷ number_values values

  -- `list.add(values[i])` for each value
  pub add_values : List T → L → L
  add_values [] l = l
  add_values (t ∷ values) l = add_values values (core.add (convert t) l)

  -- `list.insert(i, *values[i])` from index `i` on, where `value` is the conversion for mixed, and for
  -- optionals the one with `list.insert_null(i)` for the empty ones.
  pub insert_values {μ} : {A : Type μ} → (A → U) → ℕ → List A → L → Option L
  insert_values value i [] l = some l
  insert_values value i (a ∷ values) l = elim (insert i (value a) l) [
    | none ↦ none
    | some next ↦ insert_values value (suc i) values next
  ]

  pub set_list_values : ListValues T → L → Option L
  unfolding pushed_values number_values add_values insert_values optional_value
  set_list_values (plain values) l = some (set_all (pushed_values values []) l)
  set_list_values (numbers values) l = some (set_all (number_values values) l)
  set_list_values (bools []) l = some l
  set_list_values (bools (t ∷ values)) l = some (add_values (t ∷ values) l)
  set_list_values (mixeds values) l = insert_values convert zero values l
  set_list_values (optionals values) l = insert_values optional_value zero values l
