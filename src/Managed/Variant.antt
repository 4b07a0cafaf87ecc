-- ===== src/Managed/Variant.antt =====
-- include/cpprealm/managed_mixed.hpp: properties that hold a std::variant, as a mixed of realm-core.
--
-- A class is its number; `table_key` gives the key of its table. `V` is what a value holds beside its
-- type, `Key` the keys of objects. `threw` is the exception, `undefined` a link that is read from
-- another value, which realm-core does not allow.
pub mod Alternatives
mod Tests
use realm_cpp.Prelude.{ℕ, ◌==◌, Bool, true, false, Option, none, some, if◌then◌else◌}
use realm_cpp.Prelude.Attempts.{Attempt, completed, threw, undefined}
use realm_cpp.Containers.Objects.{Table, made_object}

-- managed<T>::stored_type
pub data StoredType : Type 0 where
  int_type bool_type string_type binary_type mixed_type timestamp_type : StoredType
  float_type double_type decimal_type link_type link_list_type : StoredType
  object_id_type typed_link_type uuid_type null_type : StoredType

-- The types of values that can be assigned; `int32` is `int`.
pub data Persistable : Type 0 where
  int64 int32 enumeration boolean string bytes time_point float double decimal : Persistable
  object_id uuid monostate : Persistable

-- What holds_alternative is asked for: a type of values, the variant itself, or a pointer to a class.
pub data Alternative : Type 0 where
  of : Persistable → Alternative
  variant : Alternative
  pointer : ℕ → Alternative

-- The column's mixed: null, a value with the number of its type, or a link to an object of a table.
pub data StoredMixed {ℓ κ} (V : Type ℓ) (Key : Type κ) : Type (ℓ ⊔ κ) where
  null : StoredMixed V Key
  value : ℕ → V → StoredMixed V Key
  typed_link : ℕ → Key → StoredMixed V Key

-- The number, in bridge::data_type, of the type of `mixed(M(arg))`, where `M` is the internal_type of
-- type_info. A float comes through the other operator=, and is widened to the double that mixed's
-- constructor takes. `none` is a null mixed.
pub data_type : Persistable → Option ℕ
data_type int64 = some 0
data_type int32 = some 0
data_type enumeration = some 0
data_type boolean = some 1
data_type string = some 2
data_type bytes = some 4
data_type time_point = some 8
data_type float = some 10
data_type double = some 10
data_type decimal = some 11
data_type object_id = some 15
data_type uuid = some 17
data_type monostate = none

-- `static_cast<stored_type>`, by the numbers of the enumeration; `none` is a number that has no name.
pub stored_type : ℕ → Option StoredType
stored_type n =
    if n == 0
    then some int_type
    else if n == 1
    then some bool_type
    else if n == 2
    then some string_type
    else if n == 4
    then some binary_type
    else if n == 6
    then some mixed_type
    else if n == 8
    then some timestamp_type
    else if n == 9
    then some float_type
    else if n == 10
    then some double_type
    else if n == 11
    then some decimal_type
    else if n == 12
    then some link_type
    else if n == 13
    then some link_list_type
    else if n == 15
    then some object_id_type
    else if n == 16
    then some typed_link_type
    else if n == 17
    then some uuid_type
    else if n == 18
    then some null_type
    else none

-- The case of holds_alternative for a stored type: a comparison with a type of values, that of the
-- tables of links, or none.
pub data Case : Type 0 where
  compares : Alternative → Case
  compares_tables nothing : Case

pub tested_type : StoredType → Case
tested_type int_type = compares (of int64)
tested_type bool_type = compares (of boolean)
tested_type string_type = compares (of string)
tested_type binary_type = compares (of bytes)
tested_type mixed_type = compares variant
tested_type timestamp_type = compares (of time_point)
tested_type float_type = compares (of float)
tested_type double_type = compares (of double)
tested_type decimal_type = compares (of decimal)
tested_type object_id_type = compares (of object_id)
tested_type uuid_type = compares (of uuid)
tested_type null_type = compares (of monostate)
tested_type typed_link_type = compares_tables
tested_type link_type = nothing
tested_type link_list_type = nothing

abbrev index : Persistable → ℕ
index int64 = 0
index boolean = 1
index string = 2
index bytes = 3
index int32 = 4
index time_point = 5
index float = 6
index double = 7
index decimal = 8
index object_id = 9
index uuid = 10
index monostate = 11
index enumeration = 12

-- `std::is_same_v`, where one of the types is no pointer.
unfoldable pub is_same : Alternative → Alternative → Bool
is_same (of a) (of b) = index a == index b
is_same variant variant = true
is_same a b = false

module _ {ℓ κ} {V : Type ℓ} {Key : Type κ} where
  pub get_stored_type : StoredMixed V Key → Option StoredType
  unfolding stored_type
  get_stored_type null = some null_type
  get_stored_type (value n v) = stored_type n
  get_stored_type (typed_link t k) = stored_type 16

  -- managed<T>::operator=
  pub assign : Persistable → V → StoredMixed V Key
  unfolding data_type
  assign a v = elim (data_type a) [ none ↦ null | some n ↦ value n v ]

  -- set_link(managed<U> &)
  pub set_link_managed : ℕ → Key → StoredMixed V Key
  set_link_managed t k = typed_link t k

module _ {ℓ κ} {V : Type ℓ} {Key : Type κ} (table_key : ℕ → ℕ) where
  -- The case TypedLink of holds_alternative.
  pub links_class : Alternative → StoredMixed V Key → Bool
  links_class (pointer c) (typed_link t k) = table_key c == t
  links_class a m = false

  -- holds_alternative<T, Types>
  pub holds_alternative : Alternative → StoredMixed V Key → Bool
  unfolding get_stored_type tested_type links_class
  holds_alternative a m = elim (get_stored_type m) [
    | none ↦ false
    | some s ↦ elim (tested_type s) [
      | compares b ↦ is_same a b
      | compares_tables ↦ links_class a m
      | nothing ↦ false
    ]
  ]

  -- get_stored_link<U>: the key of the object
  pub get_stored_link : ℕ → StoredMixed V Key → Attempt Key
  get_stored_link c null = undefined
  get_stored_link c (value n v) = undefined
  get_stored_link c (typed_link t k) = if table_key c == t then completed k else threw

module _ {ℓ κ ι μ} {State : Type ℓ} {V : Type κ} {T : Type ι} {Key : Type μ} (table_key : ℕ → ℕ)
    (table : Table State T Key) where
  -- set_link(U &&) for the class `c`, whose objects are those of `table`
  pub set_link_object : ℕ → T → State → State × StoredMixed V Key
  set_link_object c v st =
      let made = made_object table v st in (made.0, typed_link (table_key c) made.1)
