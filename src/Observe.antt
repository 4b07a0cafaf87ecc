-- ===== src/Observe.antt =====
-- include/cpprealm/observation.hpp: object_change_callback_wrapper, which tells a block about the
-- changes of one object.
--
-- A state holds the wrapper's fields and the history of the block's calls. The object is live: each
-- call of `before` or `after` comes with the object as it is then. `none` as the result of an
-- operation is undefined behaviour: an index out of range or an empty optional that is read.
-- realm-core is outside the repository; what a change set answers is its record.
pub mod Safety
pub mod Notices
pub mod Cycles
pub mod Collections
pub mod Dictionaries
mod Tests
use realm_cpp.Prelude.{
  ℕ, suc, List, [], ◌∷◌, ◌++◌, map, Bool, true, false, not, ◌||◌, Option, none, some, get_elem?,
  ◌==◌, if◌then◌else◌,
}
use realm_cpp.Prelude.Bytes.{Bytes}
use realm_cpp.Schema.{Property, property_value_for_name}

pub record ChangeSet : Type 0 where
  pub empty : Bool
  pub deletions : List ℕ
  pub insertions : List ℕ
  pub modifications : List ℕ
  pub columns : List ℕ
  pub collection_root_was_deleted : Bool

pub record PropertyChange {ℓ} (V : Type ℓ) : Type ℓ where
  pub name : Bytes
  pub old_value : Option V
  pub new_value : Option V

-- `object` says whether the pointer is there.
pub record ObjectChange {ℓ κ} (V : Type ℓ) (Error : Type κ) : Type (ℓ ⊔ κ) where
  pub object : Bool
  pub is_deleted : Bool
  pub error : Option Error
  pub property_changes : List (PropertyChange V)

pub record Wrapper {ℓ κ} (V : Type ℓ) (Error : Type κ) : Type (ℓ ⊔ κ) where
  pub property_names : Option (List Bytes)
  pub old_values : Option (List V)
  pub deleted : Bool
  pub delivered : List (ObjectChange V Error)

unfoldable pub no_items {ℓ} : {A : Type ℓ} → List A → Bool
no_items [] = true
no_items (x ∷ xs) = false

unfoldable pub count : ℕ → List ℕ → Bool
count k [] = false
count k (x ∷ xs) = (k == x) || count k xs

-- `vector_t values{...}; if (!values.empty()) ... = values[i];`
pub value_at {ℓ} : {V : Type ℓ} → List V → ℕ → Option (Option V)
unfolding no_items
value_at values i =
    if no_items values
    then some none
    else elim (get_elem? values i) [ none ↦ none | some v ↦ some (some v) ]

-- The loop of forward_change, from index `i` on.
pub property_changes {ℓ} :
    {V : Type ℓ} → ℕ → List Bytes → List V → List V → Option (List (PropertyChange V))
property_changes i [] olds news = some []
property_changes i (name ∷ names) olds news =
    let rest = property_changes (suc i) names olds news in
    elim (value_at olds i) [
      | none ↦ none
      | some old ↦ elim (value_at news i) [
        | none ↦ none
        | some new ↦ elim rest [
          | none ↦ none
          | some changes ↦ some (record { name = name; old_value = old; new_value = new } ∷ changes)
        ]
      ]
    ]

pub data Event {ℓ κ} (Obj : Type ℓ) (Error : Type κ) : Type (ℓ ⊔ κ) where
  befores afters : Obj → ChangeSet → Event Obj Error
  errors : Option Error → Event Obj Error

pub or_empty {ℓ} : {V : Type ℓ} → Option (List V) → List V
or_empty none = []
or_empty (some vs) = vs

module _ {ℓ κ} {V : Type ℓ} {Error : Type κ} where
  -- forward_change with a null pointer.
  unfoldable pub forward_end : Option Error → ObjectChange V Error
  forward_end none = record {
    object = false;
    is_deleted = true;
    error = none;
    property_changes = [];
  }
  forward_end (some e) = record {
    object = false;
    is_deleted = false;
    error = some e;
    property_changes = [];
  }

  -- forward_change with the object.
  pub forward_change : List Bytes → List V → List V → Option (ObjectChange V Error)
  forward_change names olds news = elim (property_changes 0 names olds news) [
    | none ↦ none
    | some changes ↦
        some
          (record { object = true; is_deleted = false; error = none; property_changes = changes })
  ]

  pub deliver : ObjectChange V Error → Wrapper V Error → Wrapper V Error
  deliver oc s = record s { delivered = s.delivered ++ oc ∷ [] }

  -- The two branches of `after`, and none where there are no new values.
  pub forwarded : Option (List V) → Wrapper V Error → Option (Wrapper V Error)
  unfolding or_empty forward_end deliver
  forwarded new_values s =
      if s.deleted then some (deliver (forward_end none) s) else elim new_values [
        | none ↦ some s
        | some news ↦ elim s.property_names [
          | none ↦ none
          | some names ↦ elim (forward_change names (or_empty s.old_values) news) [
            | none ↦ none
            | some oc ↦ some (deliver oc s)
          ]
        ]
      ]

  pub error : Option Error → Wrapper V Error → Wrapper V Error
  unfolding forward_end deliver
  error err s = deliver (forward_end err) s

-- The names that `populate_properties` has left, with the values.
pub values_of {ℓ} : {V : Type ℓ} → (Bytes → V) → Option (List Bytes) → Option (List V)
values_of value none = none
values_of value (some names) = some (map value names)

module _ {ℓ κ} {Obj : Type ℓ} {V : Type κ} where
  -- The names of the properties whose column has changed.
  unfoldable pub changed : (Bytes → ℕ) → ChangeSet → List (Property Obj V) → List Bytes
  changed column_key c [] = []
  changed column_key c (q ∷ qs) =
      let rest = changed column_key c qs in
      if count (column_key q.name) c.columns then q.name ∷ rest else rest

  unfoldable pub value_of : V → Property Obj V → List (Property Obj V) → Obj → Bytes → V
  value_of monostate p ps o name = property_value_for_name monostate true name o p ps

-- The schema is the property `p` followed by `ps`; `column_key` is that of the object's table.
module _ {ℓ κ ι} {Obj : Type ℓ} {V : Type κ} {Error : Type ι} (monostate : V)
    (column_key : Bytes → ℕ) (p : Property Obj V) (ps : List (Property Obj V)) where
  pub populate_properties : ChangeSet → Wrapper V Error → Wrapper V Error
  populate_properties c s = elim s.property_names [
    | some names ↦ s
    | none ↦
        if not (no_items c.deletions)
        then record s { deleted = true }
        else if no_items c.columns
        then s
        else if not (no_items (changed column_key c (p ∷ ps)))
        then record s { property_names = some (changed column_key c (p ∷ ps)) }
        else s
  ]

  pub read_values : Obj → ChangeSet → Wrapper V Error → Wrapper V Error × Option (List V)
  read_values o c s = if c.empty then (s, none) else (
    populate_properties c s,
    values_of (value_of monostate p ps o) (populate_properties c s).property_names,
  )

  pub before : Obj → ChangeSet → Wrapper V Error → Wrapper V Error
  before o c s = record (read_values o c s).0 { old_values = (read_values o c s).1 }

  pub after : Obj → ChangeSet → Wrapper V Error → Option (Wrapper V Error)
  unfolding read_values forwarded
  after o c s = elim (forwarded (read_values o c s).1 (read_values o c s).0) [
    | none ↦ none
    | some t ↦ some (record t { property_names = none; old_values = none })
  ]

  pub step : Event Obj Error → Wrapper V Error → Option (Wrapper V Error)
  step (befores o c) s = some (before o c s)
  step (afters o c) s = after o c s
  step (errors e) s = some (error e s)

  pub run : List (Event Obj Error) → Wrapper V Error → Option (Wrapper V Error)
  run [] s = some s
  run (e ∷ es) s = elim (step e s) [ none ↦ none | some t ↦ run es t ]
