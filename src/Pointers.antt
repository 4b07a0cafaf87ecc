-- ===== src/Pointers.antt =====
-- include/cpprealm/link.hpp: managed<T*>, a property of an object that links to another one.
--
-- An object is known by its key and, where tables are compared, by its table; a Realm by a number.
-- `linked` of realm-core is the link that a column of an object holds, none for null. In a query
-- a pointer has the shared `rbool`, as in Query.
pub mod Assignments
pub mod Comparisons
pub mod Detach
mod Tests
use realm_cpp.Prelude.{
  ℕ, List, [], ◌∷◌, Bool, true, false, not, ◌&&◌, Option, none, some, ◌==◌, if◌then◌else◌,
}
use realm_cpp.Query.{Core, Root, Rbool, boolean, copy, link_equal, link_not_equal, add_link_chain}
use realm_cpp.Containers.Objects.{Table, made_object}
use mathlib.Core.Option

-- Obj::get_linked_object and is_null, set, set_null and create_and_set_linked_object.
pub record CoreLinks {ℓ} (State : Type ℓ) : Type ℓ where
  pub linked : ℕ → ℕ → State → Option ℕ
  pub set : ℕ → ℕ → ℕ → State → State
  pub set_null : ℕ → ℕ → State → State
  pub create_and_set_linked_object : ℕ → ℕ → State → State × ℕ

-- managed<T>
pub record ManagedObject : Type 0 where
  pub m_obj : ℕ
  pub table : ℕ
  pub m_realm : ℕ

-- managed<T*>: the object that has the property, and the column.
pub record Pointer : Type 0 where
  pub m_obj : ℕ
  pub m_key : ℕ
  pub m_realm : ℕ

abbrev pub is_null_link : Option ℕ → Bool
is_null_link none = true
is_null_link (some k) = false

-- Whether a link, as an object key, is the key.
abbrev pub is_key : Option ℕ → ℕ → Bool
is_key none k = false
is_key (some j) k = j == k

module _ {ℓ} {State : Type ℓ} (core : CoreLinks State) where
  open core use {linked, set, set_null, create_and_set_linked_object}

  -- `operator bool` of an assigned pointer
  pub to_bool : Pointer → State → Bool
  to_bool p st = not (is_null_link (linked p.m_obj p.m_key st))

  -- `operator->` outside of a query, on objects of the target table. The managed object of an
  -- object that is not there cannot be made, which is `none`.
  pub arrow : ℕ → Pointer → State → Option ManagedObject
  arrow target p st =
      Option.map (λ k. record { m_obj = k; table = target; m_realm = p.m_realm })
        (linked p.m_obj p.m_key st)

  -- operator=(const managed<T> &)
  pub assign_managed : Pointer → ManagedObject → State → State
  assign_managed p obj st = set p.m_obj p.m_key obj.m_obj st

  -- operator=(const managed<T*> &)
  pub assign_pointer : Pointer → Pointer → State → State
  assign_pointer p obj st = set p.m_obj p.m_key obj.m_obj st

  -- operator=(std::nullptr_t)
  pub assign_nullptr : Pointer → State → State
  assign_nullptr p st = set_null p.m_obj p.m_key st

  -- operator=(T *)
  pub assign_value {κ} : {T : Type κ} → Table State T ℕ → Pointer → Option T → State → State
  assign_value table p none st = set_null p.m_obj p.m_key st
  assign_value table p (some o) st = elim table.has_primary_key [
    | true ↦
        let made = table.create_object_with_primary_key o st in
        table.set_properties made.1 o (set p.m_obj p.m_key made.1 made.0)
    | false ↦ elim table.is_embedded [
      | true ↦
          let made = create_and_set_linked_object p.m_obj p.m_key st in
          table.set_properties made.1 o made.0
      | false ↦
          let made = table.create_object st in
          table.set_properties made.1 o (set p.m_obj p.m_key made.1 made.0)
    ]
  ]

  -- What a program assigns to pointers.
  pub data Assignment : Type 0 where
    to_object : Pointer → ManagedObject → Assignment
    to_pointer : Pointer → Pointer → Assignment
    to_null : Pointer → Assignment

  pub assign : Assignment → State → State
  unfolding assign_managed assign_pointer assign_nullptr
  assign (to_object p obj) st = assign_managed p obj st
  assign (to_pointer p q) st = assign_pointer p q st
  assign (to_null p) st = assign_nullptr p st

  pub assign_links : List Assignment → State → State
  assign_links [] st = st
  assign_links (a ∷ as') st = assign_links as' (assign a st)

  -- `==` and `!=` of a pointer outside of a query.
  pub equals_null : Pointer → State → Bool
  equals_null p st = is_null_link (linked p.m_obj p.m_key st)

  pub equals_object : Pointer → ManagedObject → State → Bool
  equals_object p rhs st =
      if p.m_realm == rhs.m_realm then is_key (linked p.m_obj p.m_key st) rhs.m_obj else false

  pub equals_pointer : Pointer → Pointer → State → Bool
  equals_pointer p rhs st =
      if p.m_realm == rhs.m_realm then is_key (linked p.m_obj p.m_key st) rhs.m_obj else false

  pub differs_null : Pointer → State → Bool
  differs_null p st = not (is_null_link (linked p.m_obj p.m_key st))

  pub differs_object : Pointer → ManagedObject → State → Bool
  differs_object p rhs st = not (is_null_link (linked p.m_obj p.m_key st))

  pub differs_pointer : Pointer → Pointer → State → Bool
  differs_pointer p rhs st = not (is_null_link (linked p.m_obj p.m_key st))

-- `==` of ref_type, the object that `operator->` gives.
pub ref_equals_object : ManagedObject → ManagedObject → Bool
ref_equals_object m_managed rhs =
    if m_managed.m_realm == rhs.m_realm
    then (m_managed.table == rhs.table) && (m_managed.m_obj == rhs.m_obj)
    else false

pub ref_equals_pointer : ManagedObject → Pointer → Bool
ref_equals_pointer m_managed rhs =
    if m_managed.m_realm == rhs.m_realm then m_managed.m_obj == rhs.m_obj else false

-- `!=` of ref_type
pub ref_differs_object : ManagedObject → ManagedObject → Bool
unfolding ref_equals_object
ref_differs_object m_managed rhs = not (ref_equals_object m_managed rhs)

module _ {ℓ} {State : Type ℓ} (links : CoreLinks State) (core : Core)
    (object_at : ℕ → core.Object) where
  -- `==` and `!=` with an object, in a query or not: the result, and the shared `rbool` afterwards.
  pub compare_object :
      Bool
      → Pointer
      → ManagedObject
      → core.Column
      → State
      → Option (Root core)
      → Rbool core × Option (Root core)
  unfolding equals_object differs_object
  compare_object true p rhs m_key st none = (boolean (equals_object links p rhs st), none)
  compare_object false p rhs m_key st none = (boolean (differs_object links p rhs st), none)
  compare_object true p rhs m_key st (some s) =
      let r = link_equal core m_key (some (object_at rhs.m_obj)) s in (copy core r, some r)
  compare_object false p rhs m_key st (some s) =
      let r = link_not_equal core m_key (some (object_at rhs.m_obj)) s in (copy core r, some r)

  -- The same with `nullptr`.
  pub compare_null :
      Bool → Pointer → core.Column → State → Option (Root core) → Rbool core × Option (Root core)
  unfolding equals_null differs_null
  compare_null true p m_key st none = (boolean (equals_null links p st), none)
  compare_null false p m_key st none = (boolean (differs_null links p st), none)
  compare_null true p m_key st (some s) =
      let r = link_equal core m_key none s in (copy core r, some r)
  compare_null false p m_key st (some s) =
      let r = link_not_equal core m_key none s in (copy core r, some r)

-- `operator->` in a query
pub arrow_in_query : (core : Core) → core.Column → Root core → Root core
arrow_in_query core m_key s = add_link_chain core m_key s
