-- ===== src/Containers/Set.antt =====
-- include/cpprealm/managed_set.hpp: managed<std::set<T>> for primitive values, and managed<std::set<T*>>
-- for objects, whose values are the keys of the objects.
pub mod Laws
use realm_cpp.Prelude.{
  ℕ, zero, suc, ◌+◌, ◌-◌, List, [], ◌∷◌, ◌++◌, Bool, true, false, not, Option, none, some, ◌==◌,
  if◌then◌else◌,
}
use realm_cpp.Containers.{
  Outcome, returned, thrown, terminated, noexcept, called, Container, Iterator,
}
use realm_cpp.Containers.Core.{CoreSet, not_in_collection}
use realm_cpp.Containers.Objects.{Table, made_object}
use mathlib.Core.Option

module _ {ℓ κ ι} {L : Type ℓ} {U : Type κ} {T : Type ι} (core : CoreSet L U) (serialize : T → U)
    (deserialize : U → T) where
  open core use {get_any}

  pub primitive_set : Container L T
  unfolding noexcept called
  primitive_set = record {
    count = core.size;
    element = λ l m_i. noexcept (called (Option.map deserialize (get_any l m_i)));
  }

  -- `insert(const T &)`, of the set at `address`.
  unfoldable pub insert : ℕ → T → L → L × (Iterator × Bool)
  insert address v l =
      let res = core.insert (serialize v) l in
      (res.0, (record { m_i = res.1.0; m_parent = address }, res.1.1))

  pub find : ℕ → T → L → Iterator
  find address v l =
      let idx = core.find (serialize v) l in
      if idx == not_in_collection
      then record { m_i = core.size l; m_parent = address }
      else record { m_i = idx; m_parent = address }

  -- `erase(const iterator &)`, which reads the value before it removes it.
  pub erase : Iterator → L → Outcome L
  unfolding noexcept called
  erase it l = elim (noexcept (called (Option.map deserialize (get_any l it.m_i)))) [
    | returned v ↦ returned (core.remove (serialize v) l)
    | thrown ↦ thrown
    | terminated ↦ terminated
  ]

  pub clear : L → L
  clear l = core.remove_all l

  -- The loop of `detach`, with the rounds that are left and the body `insert` of std::set.
  pub detach_rest {μ} : {S : Type μ} → (T → S → S) → ℕ → ℕ → L → S → Outcome S
  detach_rest into zero i l ret = returned ret
  detach_rest into (suc n) i l ret = elim (get_any l i) [
    | none ↦ thrown
    | some u ↦ detach_rest into n (suc i) l (into (deserialize u) ret)
  ]

  pub detach {μ} : {S : Type μ} → (T → S → S) → S → L → Outcome S
  unfolding detach_rest
  detach into empty l = detach_rest into (core.size l) 0 l empty

module _ {ℓ κ ι μ} {L : Type ℓ} {State : Type κ} {T : Type ι} {Key : Type μ} (core : CoreSet L Key)
    (table : Table State T Key) where
  open table use {is_embedded}

  -- `insert(T *value)`
  pub insert_object : ℕ → T → State → L → (State × L) × (Iterator × Bool)
  insert_object address value st l =
      let made = made_object table value st in
      let before = if is_embedded then l else (core.insert made.1 l).0 in
      let res = core.insert made.1 before in
      ((made.0, res.0), (record { m_i = res.1.0; m_parent = address }, res.1.1))

  -- `insert(const iterator &, T *value)`, where the iterator is not used.
  pub insert_object_at : ℕ → T → State → L → (State × L) × Iterator
  insert_object_at address value st l =
      let made = made_object table value st in
      let res = core.insert made.1 l in
      ((made.0, res.0), record { m_i = res.1.0; m_parent = address })

  -- `insert(const managed<T> &)`, by the key of the object.
  pub insert_managed : ℕ → Key → L → L × (Iterator × Bool)
  insert_managed address key l =
      let res = core.insert key l in
      (res.0, (record { m_i = res.1.0; m_parent = address }, res.1.1))

  pub find_managed : ℕ → Key → L → Iterator
  find_managed address key l =
      let idx = core.find key l in
      if idx == not_in_collection
      then record { m_i = core.size l; m_parent = address }
      else record { m_i = idx; m_parent = address }
