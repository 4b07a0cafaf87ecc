-- ===== src/Schema/Values.antt =====
-- include/cpprealm/schema.hpp: which value `property_value_for_name` returns.
use realm_cpp.Prelude.{◌≡◌, List, [], ◌∷◌, true, false, if◌then◌else◌, arith}
use realm_cpp.Prelude.Bytes.{Bytes, bytes_eq}
use realm_cpp.Schema.{Property, is_collection, property_value_for_name}

module _ {ℓ κ} {Obj : Type ℓ} {V : Type κ} where
  -- The value of the first property with the name.
  unfoldable pub first_value : V → Bytes → Obj → List (Property Obj V) → V
  first_value monostate name cls [] = monostate
  first_value monostate name cls (p ∷ ps) =
      let next = first_value monostate name cls ps in
      if bytes_eq name p.name then p.value cls else next

  -- The properties in front of the first collection.
  unfoldable pub before_collections : List (Property Obj V) → List (Property Obj V)
  before_collections [] = []
  before_collections (p ∷ ps) =
      let rest = before_collections ps in if is_collection p then [] else p ∷ rest

  -- Without collections excluded, the value of the first property with the name is returned; with
  -- them excluded, the same is looked up only among the properties in front of the first
  -- collection: any other name, that of a plain property too, gives `monostate`.
  pub property_value_for_name_iff :
      (monostate : V) (name : Bytes) (cls : Obj) (p : Property Obj V) (ps : List (Property Obj V))
      → (property_value_for_name monostate false name cls p ps
          ≡ first_value monostate name cls (p ∷ ps))
        × (property_value_for_name monostate true name cls p ps
            ≡ first_value monostate name cls (before_collections (p ∷ ps)))
  unfolding property_value_for_name first_value before_collections
  property_value_for_name_iff m name cls p [] = ground arith
  property_value_for_name_iff m name cls p (q ∷ ps) =
      ground (arith, property_value_for_name_iff m name cls q ps)
