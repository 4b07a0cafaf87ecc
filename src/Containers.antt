-- ===== src/Containers.antt =====
-- include/cpprealm/managed_list.hpp, managed_set.hpp, managed_dictionary.hpp and results.hpp: the
-- iterators, which are the same text in each, and the loops over them.
--
-- An iterator is an index and the address of its collection. A `size_t` has 64 bits. `operator*` is
-- declared noexcept, so that an exception in it is the end of the program.
pub mod Iteration
pub mod Core
pub mod Vector
pub mod Found
pub mod Objects
pub mod Set
pub mod Map
pub mod Small
mod Tests
use realm_cpp.Prelude.{
  ℕ, zero, suc, ◌+◌, ◌-◌, ◌%◌, ◌^◌, List, [], ◌∷◌, Bool, true, false, not, ◌&&◌, Option, none, some,
  ◌==◌,
}
use realm_cpp.Prelude.Numbers.{ℤ, pos, negsuc}

-- What a call gives: a value, an exception, or the end of the program by std::terminate.
pub data Outcome {ℓ} (A : Type ℓ) : Type ℓ where
  returned : A → Outcome A
  thrown terminated : Outcome A

-- A function that is declared noexcept.
unfoldable pub noexcept {ℓ} : {A : Type ℓ} → Outcome A → Outcome A
noexcept (returned a) = returned a
noexcept thrown = terminated
noexcept terminated = terminated

-- A call of realm-core, where `none` is an exception.
unfoldable pub called {ℓ} : {A : Type ℓ} → Option A → Outcome A
called none = thrown
called (some a) = returned a

-- What iterators need of a collection: its `size()`, and `*iterator(i, this)`.
pub record Container {ℓ κ} (L : Type ℓ) (A : Type κ) : Type (ℓ ⊔ κ) where
  pub count : L → ℕ
  pub element : L → ℕ → Outcome A

pub record Iterator : Type 0 where
  pub m_i : ℕ
  pub m_parent : ℕ

unfoldable pub is_equal : Iterator → Iterator → Bool
is_equal it other = (it.m_parent == other.m_parent) && (it.m_i == other.m_i)

-- `operator++()`
unfoldable pub increment : Iterator → Iterator
increment it = record { m_i = (it.m_i + 1) % 2 ^ 64; m_parent = it.m_parent }

-- The conversion of an `int` to `size_t`.
unfoldable pub to_size : ℤ → ℕ
to_size (pos n) = n
to_size (negsuc n) = 2 ^ 64 - suc n

-- `operator++(int i)`
unfoldable pub advance : ℤ → Iterator → Iterator
unfolding to_size
advance i it = record { m_i = (it.m_i + to_size i) % 2 ^ 64; m_parent = it.m_parent }

-- `it++`, for which the compiler passes 0.
unfoldable pub post_increment : Iterator → Iterator
unfolding advance to_size
post_increment it = advance (pos 0) it

-- Where a loop ends, or that it has not ended with the fuel given.
pub data Progress {ℓ} (S : Type ℓ) : Type ℓ where
  finished : S → Progress S
  failed running : Progress S

module _ {ℓ κ} {L : Type ℓ} {A : Type κ} (c : Container L A) where
  abbrev pub begin : ℕ → L → Iterator
  begin address l = record { m_i = 0; m_parent = address }

  abbrev pub end : ℕ → L → Iterator
  end address l = record { m_i = c.count l; m_parent = address }

module _ {ℓ κ ι} {L : Type ℓ} {A : Type κ} {S : Type ι} (c : Container L A) where
  open c use {element}

  -- `for (; it != end; step(it)) body(*it);`
  unfoldable pub loop :
      (Iterator → Iterator) → (A → S → S) → L → ℕ → Iterator → Iterator → S → Progress S
  loop step body l zero it last s = running
  loop step body l (suc fuel) it last s = elim (is_equal it last) [
    | true ↦ finished s
    | false ↦ elim (element l it.m_i) [
      | returned a ↦ loop step body l fuel (step it) last (body a s)
      | thrown ↦ failed
      | terminated ↦ failed
    ]
  ]

  -- `for (auto a : collection) body(a);`
  unfoldable pub range_for : (A → S → S) → ℕ → ℕ → L → S → Progress S
  unfolding loop
  range_for body fuel address l s =
      loop increment body l fuel (begin c address l) (end c address l) s
