-- ===== src/Containers/Found.antt =====
-- include/cpprealm/results.hpp: the results of a query by index and by iterator, for the four kinds of
-- type, and the objects that link to an object.
--
-- realm-core's Results is a parameter: its size, and `get`, where `none` is an exception.
pub mod Bounds
use realm_cpp.Prelude.{ℕ, Bool, true, false, Option, none, some, leb, if◌then◌else◌}
use realm_cpp.Containers.{
  Outcome, returned, thrown, noexcept, called, Container, Iterator, is_equal,
}
use mathlib.Core.Option

pub record CoreResults {ℓ κ} (R : Type ℓ) (U : Type κ) : Type (ℓ ⊔ κ) where
  pub size : R → ℕ
  pub get : R → ℕ → Option U

module _ {ℓ κ ι} {R : Type ℓ} {U : Type κ} {T : Type ι} (core : CoreResults R U) where
  open core use {size, get}

  -- `operator[](size_t index)`, with the conversion of each kind: none for primitive types,
  -- `deserialize`, the cast to an enumeration, and the constructor of managed<T>.
  pub at_primitive : (U → T) → ℕ → R → Outcome T
  at_primitive same index m_parent =
      if leb (size m_parent) index then thrown else called (Option.map same (get m_parent index))

  pub at_mixed : (U → T) → ℕ → R → Outcome T
  at_mixed deserialize index m_parent =
      if leb (size m_parent) index
      then thrown
      else called (Option.map deserialize (get m_parent index))

  pub at_enum : (U → T) → ℕ → R → Outcome T
  at_enum cast index m_parent =
      if leb (size m_parent) index then thrown else called (Option.map cast (get m_parent index))

  pub at_object : (U → T) → ℕ → R → Outcome T
  at_object make index m_parent =
      if leb (size m_parent) index then thrown else called (Option.map make (get m_parent index))

  pub primitive_results : (U → T) → Container R T
  unfolding at_primitive noexcept
  primitive_results same = record {
    count = size;
    element = λ m_parent m_idx. noexcept (at_primitive same m_idx m_parent);
  }

  pub mixed_results : (U → T) → Container R T
  unfolding at_mixed noexcept
  mixed_results deserialize = record {
    count = size;
    element = λ m_parent m_idx. noexcept (at_mixed deserialize m_idx m_parent);
  }

  pub enum_results : (U → T) → Container R T
  unfolding at_enum noexcept
  enum_results cast = record {
    count = size;
    element = λ m_parent m_idx. noexcept (at_enum cast m_idx m_parent);
  }

  -- `operator*` of this one reads realm-core's results without the test of the index.
  pub object_results : (U → T) → Container R T
  unfolding noexcept
  object_results make = record {
    count = size;
    element = λ m_parent m_idx. noexcept (called (Option.map make (get m_parent m_idx)));
  }
