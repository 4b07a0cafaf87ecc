-- ===== src/Containers/Objects.antt =====
-- include/cpprealm/managed_set.hpp and accessors.hpp: the object that a value of a class becomes, when it
-- is linked to.
use realm_cpp.Prelude.{Bool, if◌then◌else◌}

-- The objects of the target table: how one is made from a value, by its primary key or without one,
-- and its properties set; and the key that it has. Setting the properties is one that does not throw.
pub record Table {ℓ κ ι} (State : Type ℓ) (T : Type κ) (Key : Type ι) : Type (ℓ ⊔ κ ⊔ ι) where
  pub has_primary_key : Bool
  pub is_embedded : Bool
  pub create_object : State → State × Key
  pub create_object_with_primary_key : T → State → State × Key
  pub set_properties : Key → T → State → State

module _ {ℓ κ ι} {State : Type ℓ} {T : Type κ} {Key : Type ι} (table : Table State T Key) where
  open table use {has_primary_key, create_object, create_object_with_primary_key, set_properties}

  -- The object that the value becomes.
  unfoldable pub made_object : T → State → State × Key
  made_object value st =
      let made =
        if has_primary_key then create_object_with_primary_key value st else create_object st in
      (set_properties made.1 value made.0, made.1)
