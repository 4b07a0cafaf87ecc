-- ===== src/Database/Collections.antt =====
-- include/cpprealm/accessors.hpp: properties that are sets and maps, when an object is added to a Realm.
--
-- The set or dictionary of the property is beside the state of the Realm, so that setting the
-- properties of a linked object does not reach it.
pub mod Sets
pub mod Maps
pub mod Linked
mod Tests
use realm_cpp.Prelude.{List, [], ◌∷◌, Bool, true, false, Option, none, some, if◌then◌else◌}
use realm_cpp.Prelude.Bytes.{Bytes}
use realm_cpp.Containers.Core.{CoreSet, CoreDictionary}
use realm_cpp.Containers.Objects.{Table, made_object}

module _ {ℓ κ ι} {L : Type ℓ} {U : Type κ} {T : Type ι} (core : CoreSet L U)
    (serialize : T → U) where
  -- accessor<std::set<T>>::set
  pub set_values : List T → L → L
  set_values [] l = l
  set_values (v ∷ value) l = set_values value (core.insert (serialize v) l).0

module _ {ℓ κ ι μ} {L : Type ℓ} {State : Type κ} {T : Type ι} {Key : Type μ} (core : CoreSet L Key)
    (table : Table State T Key) where
  -- accessor<std::set<T*>>::set
  pub set_objects : List (Option T) → State → L → State × L
  set_objects [] st l = (st, l)
  set_objects (none ∷ value) st l = set_objects value st l
  set_objects (some lnk ∷ value) st l =
      let made = made_object table lnk st in
      let next = if table.is_embedded then l else (core.insert made.1 l).0 in
      set_objects value made.0 next

-- The type of a map's values: a variant, an optional enumeration, or another one, each with its
-- conversion.
pub data ValueType {ℓ κ ι} (T : Type ℓ) (E : Type κ) (U : Type ι) : Type (ℓ ⊔ κ ⊔ ι) where
  variant : (T → U) → ValueType T E U
  optional_enum : (T → Option E) → (E → U) → ValueType T E U
  other : (T → U) → ValueType T E U

module _ {κ ι μ} {U : Type κ} {T : Type ι} {E : Type μ} (null : U) where
  -- The value for the dictionary.
  unfoldable pub mapped_value : ValueType T E U → T → U
  mapped_value (variant visit) v = visit v
  mapped_value (optional_enum value underlying) v = elim (value v) [
    | none ↦ null
    | some e ↦ underlying e
  ]
  mapped_value (other convert) v = convert v

module _ {ℓ κ ι μ} {L : Type ℓ} {U : Type κ} {T : Type ι} {E : Type μ} (core : CoreDictionary L U)
    (null : U) (type : ValueType T E U) where
  -- accessor<std::map<std::string, T>>::set
  unfoldable pub set_entries : List (Bytes × T) → L → L
  set_entries [] l = l
  set_entries ((k, v) ∷ value) l = set_entries value (core.insert k (mapped_value null type v) l)

-- create_and_insert_linked_object of a dictionary, by the primary key or without one, and the value
-- that links to an object.
pub record DictionaryObjects {ℓ κ ι μ ν} (State : Type ℓ) (L : Type κ) (U : Type ι) (T : Type μ)
    (Key : Type ν) : Type (ℓ ⊔ κ ⊔ ι ⊔ μ ⊔ ν) where
  pub create_and_insert : Bytes → State → L → (State × L) × Key
  pub create_and_insert_by_key : Bytes → T → State → L → (State × L) × Key
  pub link : Key → U

module _ {ℓ κ ι μ ν} {State : Type ℓ} {L : Type κ} {U : Type ι} {T : Type μ} {Key : Type ν}
    (core : CoreDictionary L U) (null : U) (table : Table State T Key)
    (objects : DictionaryObjects State L U T Key) where
  open table use {has_primary_key, set_properties}
  open objects use {create_and_insert, create_and_insert_by_key, link}

  pub create_entry : Bytes → T → State → L → (State × L) × Key
  create_entry k v st l = elim has_primary_key [
    | true ↦ create_and_insert_by_key k v st l
    | false ↦ create_and_insert k st l
  ]

  -- accessor<std::map<std::string, T*>>::set
  pub set_linked : List (Bytes × Option T) → State → L → State × L
  unfolding create_entry
  set_linked [] st l = (st, l)
  set_linked ((k, none) ∷ value) st l = set_linked value st (core.insert k null l)
  set_linked ((k, some v) ∷ value) st l =
      let made = create_entry k v st l in
      set_linked value (set_properties made.1 v made.0.0) (core.insert k (link made.1) made.0.1)
