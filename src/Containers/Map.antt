-- ===== src/Containers/Map.antt =====
-- include/cpprealm/managed_dictionary.hpp: managed<std::map<std::string, T>> and the boxes that its
-- `operator[]` gives.
--
-- `serialize` and `deserialize` are the conversions between T and the values of realm-core. `object`
-- is what assigning an object to a box needs of realm-core.
pub mod Memory
pub mod Laws
pub mod Queries
use realm_cpp.Prelude.{ℕ, Bool, true, false, not, Option, none, some, ◌==◌, if◌then◌else◌}
use realm_cpp.Prelude.Bytes.{Bytes, bytes_eq}
use realm_cpp.Containers.{
  Outcome, returned, thrown, terminated, noexcept, called, Container, Iterator, Progress, range_for,
}
use realm_cpp.Containers.Core.{CoreDictionary, not_in_collection}
use mathlib.Core.Option

-- A std::map in memory, and `map[key] = v`.
abbrev pub Entries {ℓ} : Type ℓ → Type ℓ
Entries T = Bytes → Option T

unfoldable pub put {ℓ} : {T : Type ℓ} → Bytes × T → Entries T → Entries T
put e m key = if bytes_eq e.0 key then some e.1 else m key

module _ {ℓ κ ι} {L : Type ℓ} {U : Type κ} {T : Type ι} (core : CoreDictionary L U)
    (serialize : T → U) (deserialize : U → T) where
  open core use {size, get_pair, find_any_key, get, insert}

  -- `get_pair(m_i)`, with the value converted.
  pub pair_at : L → ℕ → Option (Bytes × T)
  pair_at l m_i = Option.map (λ p. (p.0, deserialize p.1)) (get_pair l m_i)

  pub map_container : Container L (Bytes × T)
  unfolding noexcept called pair_at
  map_container = record { count = size; element = λ l m_i. noexcept (called (pair_at l m_i)) }

  -- `find`, of the map at `address`; it throws in a query.
  pub find : Bool → ℕ → Bytes → L → Outcome Iterator
  find in_query address key l =
      let i = find_any_key key l in
      if in_query
      then thrown
      else if i == not_in_collection
      then returned (record { m_i = size l; m_parent = address })
      else returned (record { m_i = i; m_parent = address })

  pub erase : Bytes → L → Outcome L
  unfolding called
  erase key l = called (core.erase key l)

  -- `contains_key` outside of a query
  pub contains_key : Bytes → L → Bool
  contains_key key l = not (find_any_key key l == not_in_collection)

  -- `operator[](key)` gives a box; `operator*` of the box reads it, `operator=` writes it.
  unfoldable pub read_box : Bytes → L → Outcome T
  unfolding called
  read_box m_key l = called (Option.map deserialize (get m_key l))

  unfoldable pub assign_box : Bytes → T → L → L
  assign_box m_key o l = insert m_key (serialize o) l

  -- `detach` of a map whose values are not objects: `for (auto [k, v] : *this) ret[k] = v;`
  pub detach : ℕ → ℕ → L → Progress (Entries T)
  unfolding put map_container
  detach fuel address l = range_for map_container put fuel address l (λ key. none)

-- Linked objects in a dictionary: realm-core makes one under the key, by its primary key or without.
pub record LinkedObjects {ℓ κ ι} (L : Type ℓ) (V : Type κ) (Obj : Type ι) : Type (ℓ ⊔ κ ⊔ ι) where
  pub has_primary_key : Bool
  pub create_and_insert : Bytes → L → L × Obj
  pub create_and_insert_by_key : Bytes → V → L → L × Obj
  pub set_properties : Obj → V → L → L

module _ {ℓ κ ι μ} {L : Type ℓ} {U : Type κ} {V : Type ι} {Obj : Type μ} (core : CoreDictionary L U)
    (objects : LinkedObjects L V Obj) (null : U) where
  -- `box<managed<V*>>::operator=(V *)`
  pub assign_object : Bytes → Option V → L → L
  assign_object m_key none l = core.insert m_key null l
  assign_object m_key (some o) l =
      let made =
        if objects.has_primary_key
        then objects.create_and_insert_by_key m_key o l
        else objects.create_and_insert m_key l in
      objects.set_properties made.1 o made.0
