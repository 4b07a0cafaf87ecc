-- ===== src/Mixed.antt =====
-- src/cpprealm/internal/bridge/mixed.cpp: the value of any type that the bridge holds, in the build with
-- CPPREALM_HAVE_GENERATED_BRIDGE_TYPES, where realm-core's Mixed is a member and a move copies it. In
-- the other build it is behind a shared pointer, which a move empties.
--
-- realm-core's Mixed refers to the bytes of a text or of binary data and does not own them, so the
-- bridge's copy keeps them itself. A reference is not read here: `stored` only says that it is one.
-- The values that a Mixed holds directly (numbers, times, identifiers, keys, links) are `Scalar`.
pub mod Program
mod Tests
use realm_cpp.Prelude.{Bool, true, false, Option, none, some, []}
use realm_cpp.Prelude.Bytes.{Bytes}

-- What is told of realm-core's Mixed by `is_null()`, `type()` and the values held directly.
pub data Stored {ℓ} (Scalar : Type ℓ) : Type ℓ where
  null : Stored Scalar
  held : Scalar → Stored Scalar
  string_ref binary_ref : Stored Scalar

-- A realm::Mixed whose bytes can be read.
pub data Value {ℓ} (Scalar : Type ℓ) : Type ℓ where
  nothing : Value Scalar
  scalar : Scalar → Value Scalar
  text binary : Bytes → Value Scalar

pub record Mixed {ℓ} (Scalar : Type ℓ) : Type ℓ where
  pub m_owned_string : Bytes
  pub m_owned_data : Bytes
  pub m_mixed : Stored Scalar

module _ {ℓ} {Scalar : Type ℓ} where
  -- The constructors of realm::Mixed, of which the bridge sees no more.
  abbrev pub stored_of : Value Scalar → Stored Scalar
  stored_of nothing = null
  stored_of (scalar s) = held s
  stored_of (text bytes) = string_ref
  stored_of (binary bytes) = binary_ref

  -- mixed(), and what a member that is not mentioned starts as.
  pub empty_mixed : Mixed Scalar
  empty_mixed = record { m_owned_string = []; m_owned_data = []; m_mixed = null }

  -- mixed(const std::monostate &)
  pub from_null : Mixed Scalar
  from_null = record { m_owned_string = []; m_owned_data = []; m_mixed = null }

  -- mixed(const std::string &)
  pub from_string : Bytes → Mixed Scalar
  from_string v = record { m_owned_string = v; m_owned_data = []; m_mixed = string_ref }

  -- mixed(const struct binary &)
  pub from_binary : Bytes → Mixed Scalar
  from_binary v = record { m_owned_string = []; m_owned_data = v; m_mixed = binary_ref }

  -- The constructors for timestamp, int, int64_t, double, uuid, object_id, decimal128, obj_link,
  -- obj_key and bool.
  pub from_scalar : Scalar → Mixed Scalar
  from_scalar v = record { m_owned_string = []; m_owned_data = []; m_mixed = held v }

  -- mixed(const realm::Mixed &)
  pub from_core : Value Scalar → Mixed Scalar
  unfolding empty_mixed
  from_core nothing = empty_mixed
  from_core (scalar v) = record empty_mixed { m_mixed = held v }
  from_core (text v) = record empty_mixed { m_owned_string = v; m_mixed = string_ref }
  from_core (binary v) = record empty_mixed { m_owned_data = v; m_mixed = binary_ref }

  -- CPPREALM_OPTIONAL_MIXED, by the constructor of the type.
  pub from_optional {κ} : {T : Type κ} → (T → Mixed Scalar) → Option T → Mixed Scalar
  from_optional make none = from_null
  from_optional make (some v) = make v

  -- The three `if`s that the copies begin with: which owned bytes are taken over.
  pub take_owned : Mixed Scalar → Mixed Scalar → Mixed Scalar
  take_owned other s = elim other.m_mixed [
    | null ↦ s
    | held v ↦ s
    | string_ref ↦ record s { m_owned_string = other.m_owned_string }
    | binary_ref ↦ record s { m_owned_data = other.m_owned_data }
  ]

  -- mixed(const mixed &)
  pub copy_construct : Mixed Scalar → Mixed Scalar
  unfolding take_owned empty_mixed
  copy_construct other = record (take_owned other empty_mixed) { m_mixed = other.m_mixed }

  -- operator=(const mixed &), where `this != &other`
  pub copy_assign : Mixed Scalar → Mixed Scalar → Mixed Scalar
  unfolding take_owned
  copy_assign other s = record (take_owned other s) { m_mixed = other.m_mixed }

  -- What std::move leaves of `other`: its Mixed as it was, and of the bytes that were taken over
  -- the unspecified `left`.
  pub moved_out : Bytes → Mixed Scalar → Mixed Scalar
  moved_out left other = elim other.m_mixed [
    | null ↦ other
    | held v ↦ other
    | string_ref ↦ record other { m_owned_string = left }
    | binary_ref ↦ record other { m_owned_data = left }
  ]

  -- mixed(mixed &&): the new one, and what is left of the other.
  pub move_construct : Bytes → Mixed Scalar → Mixed Scalar × Mixed Scalar
  unfolding take_owned empty_mixed moved_out
  move_construct left other =
      (record (take_owned other empty_mixed) { m_mixed = other.m_mixed }, moved_out left other)

  -- operator=(mixed &&), where `this != &other`
  pub move_assign : Bytes → Mixed Scalar → Mixed Scalar → Mixed Scalar × Mixed Scalar
  unfolding take_owned moved_out
  move_assign left other s =
      (record (take_owned other s) { m_mixed = other.m_mixed }, moved_out left other)

  -- operator Mixed()
  pub to_core : Mixed Scalar → Value Scalar
  to_core s = elim s.m_mixed [
    | null ↦ nothing
    | held v ↦ scalar v
    | string_ref ↦ text s.m_owned_string
    | binary_ref ↦ binary s.m_owned_data
  ]

  -- operator std::string(), operator bridge::binary() and the other conversions; `none` is a type
  -- that the conversion does not expect.
  pub to_string : Mixed Scalar → Bytes
  to_string s = s.m_owned_string

  pub to_binary : Mixed Scalar → Bytes
  to_binary s = s.m_owned_data

  pub to_scalar : Mixed Scalar → Option Scalar
  to_scalar s = elim s.m_mixed [
    | null ↦ none
    | held v ↦ some v
    | string_ref ↦ none
    | binary_ref ↦ none
  ]

  pub is_null : Mixed Scalar → Bool
  is_null s = elim s.m_mixed [
    | null ↦ true
    | held v ↦ false
    | string_ref ↦ false
    | binary_ref ↦ false
  ]
