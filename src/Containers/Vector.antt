-- ===== src/Containers/Vector.antt =====
-- include/cpprealm/managed_list.hpp, managed<std::vector<T>> for primitive values.
--
-- Each operation makes the List of realm-core anew from the object and the column, so that the state
-- is that List. `serialize` and `deserialize` are the conversions of the type T.
pub mod Memory
pub mod Laws
use realm_cpp.Prelude.{
  ℕ, zero, suc, ◌+◌, ◌-◌, ◌%◌, ◌^◌, List, [], ◌∷◌, ◌++◌, Bool, true, false, Option, none, some,
  ◌==◌,
}
use realm_cpp.Containers.{Outcome, returned, thrown, noexcept, called, Container}
use realm_cpp.Containers.Core.{CoreList}
use mathlib.Core.Option

-- The operations that change a list.
pub data VectorCall {ℓ} (T : Type ℓ) : Type ℓ where
  push_back : T → VectorCall T
  pop_back clear : VectorCall T
  erase : ℕ → VectorCall T
  set : ℕ → T → VectorCall T

module _ {ℓ κ ι} {L : Type ℓ} {U : Type κ} {T : Type ι} (core : CoreList L U) (serialize : T → U)
    (deserialize : U → T) where
  open core use {size, get, add, remove, remove_all}

  -- `operator[](size_t idx) const`
  pub at : ℕ → L → Outcome T
  at idx l = called (Option.map deserialize (get l idx))

  pub primitive_vector : Container L T
  unfolding at noexcept
  primitive_vector = record { count = size; element = λ l i. noexcept (at i l) }

  -- The loop of `detach`, with the rounds that are left.
  pub detach_rest : ℕ → ℕ → L → List T → Outcome (List T)
  detach_rest zero i l ret = returned ret
  detach_rest (suc n) i l ret = elim (get l i) [
    | none ↦ thrown
    | some u ↦ detach_rest n (suc i) l (ret ++ deserialize u ∷ [])
  ]

  pub detach : L → Outcome (List T)
  unfolding detach_rest
  detach l = elim (size l == 0) [ true ↦ returned [] | false ↦ detach_rest (size l) 0 l [] ]

  pub call : VectorCall T → L → Option L
  call (push_back value) l = some (add (serialize value) l)
  call pop_back l = remove ((size l + (2 ^ 64 - 1)) % 2 ^ 64) l
  call clear l = some (remove_all l)
  call (erase idx) l = remove idx l
  call (set pos a) l = core.set pos (serialize a) l

  -- Several of them, and which have thrown.
  pub call_all : List (VectorCall T) → L → L × List Bool
  call_all [] l = (l, [])
  call_all (c ∷ cs) l = elim (call c l) [
    | none ↦ let r = call_all cs l in (r.0, true ∷ r.1)
    | some next ↦ let r = call_all cs next in (r.0, false ∷ r.1)
  ]
