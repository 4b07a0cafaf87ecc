-- ===== src/Pointers/Detach.antt =====
-- include/cpprealm/link.hpp and macros.hpp: `detach` of pointers and of objects, which copies all
-- properties into memory.
--
-- An object is its table and its key. A column is found in the table by the property's name; where
-- there is none, reading throws. The calls of `detach` run on fuel, one unit for each object;
-- `running` is a call that needs more.
pub mod Ends
use realm_cpp.Prelude.{
  ℕ, zero, suc, ◌<◌, ◌≡◌, ◌≢◌, refl, sym, ◌∙◌, inl, inr, List, [], ◌∷◌, Bool, true, false, ◌||◌,
  Option, none, some, ◌==◌, arith, ==_iff, Option-cases, Bool-cases, subst,
}
use realm_cpp.Prelude.Bytes.{Bytes}
use realm_cpp.Pointers.{CoreLinks}

-- A property of a class: a value, or a pointer to another class.
pub data ClassProperty : Type 0 where
  a_value : Bytes → ClassProperty
  a_pointer : Bytes → ℕ → ClassProperty

mutual
  -- An object in memory, with the objects that its pointers own.
  pub data Detached (V : Type 0) : Type 0 where
    object : DetachedFields V → Detached V

  pub data DetachedFields (V : Type 0) : Type 0 where
    end : DetachedFields V
    value_field : V → DetachedFields V → DetachedFields V
    pointer_field : Detached V → DetachedFields V → DetachedFields V

pub data Progress (A : Type 0) : Type 0 where
  ended : A → Progress A
  threw running : Progress A

-- `get_column_key` of a table, the pointers of a class's schema, and the value of a column.
pub record Classes {ℓ} (State : Type ℓ) (V : Type 0) : Type ℓ where
  pub properties : ℕ → List ClassProperty
  pub get_column_key : ℕ → Bytes → Option ℕ
  pub value : ℕ → ℕ → State → V

module _ {ℓ} {State : Type ℓ} {V : Type 0} (links : CoreLinks State) (classes : Classes State V)
    (st : State) where
  open links use {linked}
  open classes use {properties, get_column_key, value}

  abbrev pub ObjectAt : Type 0
  ObjectAt = ℕ × ℕ

  -- `m_obj->is_null(m_key) ? *m_obj : m_obj->get_linked_object(m_key)`, of a pointer to `target`
  unfoldable pub pointee : ℕ → ObjectAt → ℕ → ObjectAt
  pointee target m_obj m_key = elim (linked m_obj.1 m_key st) [
    | none ↦ m_obj
    | some k ↦ (target, k)
  ]

  unfoldable pub with_value : V → Progress (DetachedFields V) → Progress (DetachedFields V)
  with_value v (ended fs) = ended (value_field v fs)
  with_value v threw = threw
  with_value v running = running

  unfoldable pub with_pointer :
      Progress (Detached V) → Progress (DetachedFields V) → Progress (DetachedFields V)
  with_pointer (ended d) (ended fs) = ended (pointer_field d fs)
  with_pointer (ended d) threw = threw
  with_pointer (ended d) running = running
  with_pointer threw fs = threw
  with_pointer running fs = running

  -- The properties in order, with the `detach` that is called for pointers.
  unfoldable pub detach_properties :
      (ℕ → ObjectAt → Progress (Detached V))
      → List ClassProperty
      → ObjectAt
      → Progress (DetachedFields V)
  unfolding with_value with_pointer pointee
  detach_properties detach_to [] m_obj = ended end
  detach_properties detach_to (a_value name ∷ ps) m_obj = elim (get_column_key m_obj.0 name) [
    | none ↦ threw
    | some m_key ↦ with_value (value m_obj.1 m_key st) (detach_properties detach_to ps m_obj)
  ]
  detach_properties detach_to (a_pointer name target ∷ ps) m_obj =
      elim (get_column_key m_obj.0 name) [
        | none ↦ threw
        | some m_key ↦
            with_pointer (detach_to target (pointee target m_obj m_key))
              (detach_properties detach_to ps m_obj)
      ]

  unfoldable pub made_of : Progress (DetachedFields V) → Progress (Detached V)
  made_of (ended fs) = ended (object fs)
  made_of threw = threw
  made_of running = running

  -- `detach` of managed<T>, for the class `c`; that of managed<T*> is `detach` of its pointee.
  unfoldable pub detach : ℕ → ℕ → ObjectAt → Progress (Detached V)
  unfolding detach_properties made_of
  detach zero c m_obj = running
  detach (suc fuel) c m_obj = made_of (detach_properties (detach fuel) (properties c) m_obj)

  -- Whether the class has a pointer to `target`.
  unfoldable pub points_to : ℕ → List ClassProperty → Bool
  points_to target [] = false
  points_to target (a_value name ∷ ps) = points_to target ps
  points_to target (a_pointer name c ∷ ps) = (c == target) || points_to target ps
