-- ===== src/Schema/Core.antt =====
-- include/cpprealm/schema.hpp: the schema that realm-core is given.
use realm_cpp.Prelude.{◌≡◌, refl, List, [], ◌∷◌, map, Bool, true, false, ◌||◌, if◌then◌else◌, arith}
use realm_cpp.Prelude.Bytes.{Bytes, is_empty}
use realm_cpp.Schema.{
  Property, ResultType, ObjectType, has_primary_key, primary_key_name, add_properties,
  to_core_schema, to_core_property,
}

unfoldable pub is_backlink : ResultType → Bool
is_backlink r = elim r [ ResultType.backlink ↦ true | _ ↦ false ]

unfoldable pub last_or : Bytes → List Bytes → Bytes
last_or name [] = name
last_or name (n ∷ ns) = last_or n ns

module _ {ℓ κ} {Obj : Type ℓ} {V : Type κ} where
  -- The names of the properties that are stored: those that have one and are not backlinks.
  unfoldable pub stored_names : List (Property Obj V) → List Bytes
  unfolding is_backlink
  stored_names [] = []
  stored_names (p ∷ ps) =
      let rest = stored_names ps in
      if is_backlink p.result || is_empty p.name then rest else p.name ∷ rest

  -- The names of the primary keys.
  unfoldable pub primary_names : List (Property Obj V) → List Bytes
  primary_names [] = []
  primary_names (p ∷ ps) =
      let rest = primary_names ps in if p.is_primary_key then p.name ∷ rest else rest

  to_core_property_name :
      (p : Property Obj V)
      → (to_core_property p).name ≡ (if is_backlink p.result then [] else p.name)
  unfolding to_core_property is_backlink
  to_core_property_name p = ground arith

  names-add_properties :
      (ps : List (Property Obj V)) → map (λ c. c.name) (add_properties ps) ≡ stored_names ps
  unfolding add_properties is_backlink stored_names
  names-add_properties [] = refl
  names-add_properties (p ∷ ps) = ground (arith, to_core_property_name p, names-add_properties ps)

  primary_key_name_last :
      (acc : Bytes) (ps : List (Property Obj V))
      → primary_key_name acc ps ≡ last_or acc (primary_names ps)
  unfolding primary_key_name primary_names last_or
  primary_key_name_last acc [] = refl
  primary_key_name_last acc (p ∷ ps) =
      ground (arith, primary_key_name_last p.name ps, primary_key_name_last acc ps)

  no_primary : (ps : List (Property Obj V)) → has_primary_key ps ≡ false → primary_names ps ≡ []
  unfolding has_primary_key primary_names
  no_primary [] e = refl
  no_primary (p ∷ ps) e = ground (arith, no_primary ps)

  -- The schema for realm-core keeps the name, the type and, in order, the name of every property that
  -- is stored; its primary key is the last of those marked as primary, empty if there is none.
  pub to_core_schema_lem :
      (name : Bytes) (object_type : ObjectType) (ps : List (Property Obj V))
      → (map (λ c. c.name) (to_core_schema name object_type ps).persisted_properties
          ≡ stored_names ps)
        × ((to_core_schema name object_type ps).primary_key ≡ last_or [] (primary_names ps))
        × ((to_core_schema name object_type ps).name ≡ name)
        × ((to_core_schema name object_type ps).object_type ≡ object_type)
  unfolding to_core_schema last_or
  to_core_schema_lem name object_type ps =
      ground (arith, names-add_properties ps, primary_key_name_last [] ps, no_primary ps)
