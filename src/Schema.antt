-- ===== src/Schema.antt =====
-- include/cpprealm/schema.hpp: the schema of a class, its conversion for realm-core, and the reading
-- of a property's value by name.
--
-- The pack `Properties...` is a list; what a property's C++ type decides at compile time is the field
-- `result`. The flags of `internal::type_info::type()` and the value that the property's accessor
-- reads (`(cls.*ptr)`, detached where it is not a pointer) are fields.
pub mod Values
pub mod Core
mod Tests
use realm_cpp.Prelude.{
  List, [], ◌∷◌, ◌++◌, map, Bool, true, false, ◌&&◌, ◌||◌, Option, none, some, if◌then◌else◌,
}
use realm_cpp.Prelude.Bytes.{Bytes, bytes_eq, is_empty}

-- `internal::bridge::property::type`, as far as it is tested or changed here.
pub record Flags : Type 0 where
  pub is_array : Bool
  pub is_dictionary : Bool
  pub is_set : Bool
  pub is_nullable : Bool

-- The cases of the `if constexpr` in the conversion; with the name of the schema that is linked to.
pub data ResultType : Type 0 where
  vector_of set_of : Option Bytes → ResultType
  map_of_optional_link map_of_pointer pointer : Bytes → ResultType
  map_of_other backlink other : ResultType

pub data ObjectType : Type 0 where
  top_level embedded asymmetric : ObjectType

-- `internal::bridge::property`.
pub record CoreProperty : Type 0 where
  pub name : Bytes
  pub type_flags : Flags
  pub is_primary : Bool
  pub object_link : Bytes

-- `internal::bridge::object_schema`.
pub record CoreSchema : Type 0 where
  pub name : Bytes
  pub persisted_properties : List CoreProperty
  pub primary_key : Bytes
  pub object_type : ObjectType

pub record Property {ℓ κ} (Obj : Type ℓ) (V : Type κ) : Type (ℓ ⊔ κ) where
  pub name : Bytes
  pub type_flags : Flags
  pub is_primary_key : Bool
  pub result : ResultType
  pub value : Obj → V

-- `property.set_object_link(...)` and `type | Nullable`.
linked : CoreProperty → Bytes → CoreProperty
linked p link = record p { object_link = link }

nullable : CoreProperty → CoreProperty
nullable p = record p { type_flags = record (p.type_flags) { is_nullable = true } }

-- `internal::bridge::property{}`.
abbrev pub no_property : CoreProperty
no_property = record {
  name = [];
  type_flags = record {
    is_array = false;
    is_dictionary = false;
    is_set = false;
    is_nullable = false;
  };
  is_primary = false;
  object_link = [];
}

by_result : ResultType → CoreProperty → CoreProperty
unfolding linked nullable
by_result (vector_of none) p = p
by_result (vector_of (some link)) p = linked p link
by_result (set_of none) p = p
by_result (set_of (some link)) p = linked p link
by_result (map_of_optional_link link) p = nullable (linked p link)
by_result (map_of_pointer link) p = nullable (linked p link)
by_result map_of_other p = p
by_result (pointer link) p = nullable (linked p link)
by_result backlink p = no_property
by_result other p = p

module _ {ℓ κ} {Obj : Type ℓ} {V : Type κ} where
  -- The loop of do_apply_name over `primary_key_name`.
  pub primary_key_name : Bytes → List (Property Obj V) → Bytes
  primary_key_name acc [] = acc
  primary_key_name acc (p ∷ ps) = primary_key_name (if p.is_primary_key then p.name else acc) ps

  -- `HasPrimaryKeyProperty`, by the recursion of `primary_key<N>`.
  unfoldable pub has_primary_key : List (Property Obj V) → Bool
  has_primary_key [] = false
  has_primary_key (p ∷ ps) = p.is_primary_key || has_primary_key ps

  -- property::operator internal::bridge::property()
  pub to_core_property : Property Obj V → CoreProperty
  unfolding by_result
  to_core_property p = by_result p.result (record {
    name = p.name;
    type_flags = p.type_flags;
    is_primary = p.is_primary_key;
    object_link = [];
  })

  -- `add_property`, for every property in order.
  pub add_properties : List (Property Obj V) → List CoreProperty
  unfolding is_empty
  add_properties [] = []
  add_properties (p ∷ ps) =
      let rest = add_properties ps in
      if is_empty (to_core_property p).name then rest else to_core_property p ∷ rest

  pub to_core_schema : Bytes → ObjectType → List (Property Obj V) → CoreSchema
  to_core_schema name object_type ps = record {
    name = name;
    persisted_properties = add_properties ps;
    primary_key = if has_primary_key ps then primary_key_name [] ps else [];
    object_type = object_type;
  }

  unfoldable pub is_collection : Property Obj V → Bool
  is_collection p = p.type_flags.is_array || (p.type_flags.is_dictionary || p.type_flags.is_set)

  -- property_value_for_name<N>, where `p` is the property N, `rest` those behind it and `monostate`
  -- the value of `variant_t{}`.
  unfoldable pub property_value_for_name :
      V → Bool → Bytes → Obj → Property Obj V → List (Property Obj V) → V
  unfolding is_collection
  property_value_for_name monostate excluding name cls p [] =
      if excluding && is_collection p
      then monostate
      else if bytes_eq name p.name
      then p.value cls
      else monostate
  property_value_for_name monostate excluding name cls p (q ∷ rest) =
      let next = property_value_for_name monostate excluding name cls q rest in
      if excluding && is_collection p
      then monostate
      else if bytes_eq name p.name
      then p.value cls
      else next
