-- ===== src/Database/Links.antt =====
-- include/cpprealm/accessors.hpp and managed_list.hpp: properties that link to objects, when an object is
-- added to a Realm, and the lists of objects.
--
-- `table` has the objects of the target class. The state of the Realm is `State`; the list that is
-- written is beside it, so that setting the properties of a linked object does not reach that list.
-- `set_all` sets each property of a linked object with its accessor, which may throw. `none` is an
-- exception, and for a pointer the null pointer. What an exception leaves behind is not modelled.
pub mod Appended
pub mod Gaps
use realm_cpp.Prelude.{
  ℕ, zero, suc, List, [], ◌∷◌, Bool, true, false, Option, none, some, if◌then◌else◌,
}
use realm_cpp.Containers.Core.{CoreList}
use realm_cpp.Containers.Objects.{Table}

-- What realm-core does for embedded objects: create_and_insert_linked_object(i) and add_embedded of a
-- list, and create_and_set_linked_object of a property.
pub record Embedded {ℓ κ ι} (State : Type ℓ) (L : Type κ) (Key : Type ι) : Type (ℓ ⊔ κ ⊔ ι) where
  pub create_and_insert : ℕ → State → L → Option ((State × L) × Key)
  pub add_embedded : State → L → (State × L) × Key
  pub create_and_set : State → State × Key

module _ {ℓ κ ι μ} {State : Type ℓ} {L : Type κ} {T : Type ι} {Key : Type μ} (core : CoreList L Key)
    (table : Table State T Key) (embedded : Embedded State L Key)
    (set_all : Key → T → State → Option State) where
  open core use {add}
  open table use {has_primary_key, is_embedded, create_object, create_object_with_primary_key}
  open embedded use {create_and_insert, add_embedded, create_and_set}

  -- Whether the object is made by the table, not by the list.
  pub by_table : Bool
  by_table = elim has_primary_key [
    | true ↦ true
    | false ↦ elim is_embedded [ true ↦ false | false ↦ true ]
  ]

  -- `list.add(m_obj.get_key())`, which embedded objects skip.
  pub add_linked : Key → L → L
  add_linked key l = elim is_embedded [ true ↦ l | false ↦ add key l ]

  -- The object of the table for a value, by its primary key or without one.
  pub created : T → State → State × Key
  created lnk st =
      if has_primary_key then create_object_with_primary_key lnk st else create_object st

  -- `std::apply` on the new object
  pub set_up : T → State × Key → Option (State × Key)
  set_up lnk made = elim (set_all made.1 lnk made.0) [ none ↦ none | some st ↦ some (st, made.1) ]

  -- The round of accessor<std::vector<T*>>::set for index `i`.
  pub set_link_at : ℕ → Option T → State → L → Option (State × L)
  unfolding by_table add_linked created set_up
  set_link_at i none st l = some (st, l)
  set_link_at i (some lnk) st l = elim by_table [
    | true ↦ elim (set_up lnk (created lnk st)) [
      | none ↦ none
      | some made ↦ some (made.0, add_linked made.1 l)
    ]
    | false ↦ elim (create_and_insert i st l) [
      | none ↦ none
      | some made ↦ elim (set_up lnk (made.0.0, made.1)) [
        | none ↦ none
        | some done ↦ some (done.0, made.0.1)
      ]
    ]
  ]

  -- accessor<std::vector<T*>>::set, from index `i` on
  pub set_links : ℕ → List (Option T) → State → L → Option (State × L)
  set_links i [] st l = some (st, l)
  set_links i (lnk ∷ value) st l = elim (set_link_at i lnk st l) [
    | none ↦ none
    | some next ↦ set_links (suc i) value next.0 next.1
  ]

  -- managed<std::vector<T*>>::push_back(T *)
  pub push_back_object : T → State → L → Option (State × L)
  unfolding by_table add_linked created set_up
  push_back_object value st l = elim by_table [
    | true ↦ elim (set_up value (created value st)) [
      | none ↦ none
      | some made ↦ some (made.0, add_linked made.1 l)
    ]
    | false ↦
        let made = add_embedded st l in
        elim (set_up value (made.0.0, made.1)) [ none ↦ none | some done ↦ some (done.0, made.0.1) ]
  ]

  -- managed<std::vector<T*>>::push_back of a managed object
  pub push_back_managed : Key → L → Option L
  push_back_managed key l = elim is_embedded [ true ↦ none | false ↦ some (add key l) ]

  -- accessor<T*>::set, on the link that the column holds
  pub set_link : Option T → State → Option Key → Option (State × Option Key)
  unfolding by_table created set_up
  set_link none st held = some (st, held)
  set_link (some value) st held = elim by_table [
    | true ↦ elim (set_up value (created value st)) [
      | none ↦ none
      | some made ↦ some (made.0, some made.1)
    ]
    | false ↦ elim (set_up value (create_and_set st)) [
      | none ↦ none
      | some made ↦ some (made.0, some made.1)
    ]
  ]
