-- ===== src/Containers/Core.antt =====
-- The collections of realm-core that include/cpprealm/managed_list.hpp, managed_set.hpp and
-- managed_dictionary.hpp call, and what is documented of them.
--
-- An operation that may throw returns `none` then and leaves the collection. `view` is what a
-- collection holds, in the order of its indices.
use realm_cpp.Prelude.{
  ℕ, zero, suc, ◌-◌, ◌^◌, ◌≡◌, List, [], ◌∷◌, ◌++◌, Bool, true, false, not, Option, none, some,
  length, get_elem?, ◌||◌, ◌&&◌, if◌then◌else◌,
}
use realm_cpp.Prelude.Bytes.{Bytes, bytes_eq}
use mathlib.Core.Option

-- `size_t(-1)`
abbrev pub not_in_collection : ℕ
not_in_collection = 2 ^ 64 - 1

module _ {ℓ} {A : Type ℓ} where
  unfoldable pub remove_at : ℕ → List A → Option (List A)
  remove_at i [] = none
  remove_at zero (x ∷ xs) = some xs
  remove_at (suc i) (x ∷ xs) = Option.map (λ r. x ∷ r) (remove_at i xs)

  unfoldable pub replace_at : ℕ → A → List A → Option (List A)
  replace_at i a [] = none
  replace_at zero a (x ∷ xs) = some (a ∷ xs)
  replace_at (suc i) a (x ∷ xs) = Option.map (λ r. x ∷ r) (replace_at i a xs)

  -- The first entry with a key.
  unfoldable pub lookup : Bytes → List (Bytes × A) → Option A
  lookup key [] = none
  lookup key (e ∷ es) = let rest = lookup key es in if bytes_eq e.0 key then some e.1 else rest

pub record CoreList {ℓ κ} (L : Type ℓ) (U : Type κ) : Type (ℓ ⊔ κ) where
  pub size : L → ℕ
  pub get : L → ℕ → Option U
  pub add : U → L → L
  pub set : ℕ → U → L → Option L
  pub remove : ℕ → L → Option L
  pub remove_all : L → L

pub record CoreListLaws {ℓ κ} {L : Type ℓ} {U : Type κ} (core : CoreList L U) : Type (ℓ ⊔ κ) where
  pub view : L → List U
  pub size_view : (l : L) → core.size l ≡ length (view l)
  pub get_view : (l : L) (i : ℕ) → core.get l i ≡ get_elem? (view l) i
  pub add_view : (u : U) (l : L) → view (core.add u l) ≡ view l ++ u ∷ []
  pub set_view :
      (i : ℕ) (u : U) (l : L) → Option.map view (core.set i u l) ≡ replace_at i u (view l)
  pub remove_view : (i : ℕ) (l : L) → Option.map view (core.remove i l) ≡ remove_at i (view l)
  pub remove_all_view : (l : L) → view (core.remove_all l) ≡ []

-- `insert` returns the index of the value and whether it is new.
pub record CoreSet {ℓ κ} (L : Type ℓ) (U : Type κ) : Type (ℓ ⊔ κ) where
  pub size : L → ℕ
  pub get_any : L → ℕ → Option U
  pub insert : U → L → L × (ℕ × Bool)
  pub remove : U → L → L
  pub remove_all : L → L
  pub find : U → L → ℕ

-- `has` says which values a set has; no value has two indices.
pub record CoreSetLaws {ℓ κ} {L : Type ℓ} {U : Type κ} (core : CoreSet L U) : Type (ℓ ⊔ κ) where
  pub view : L → List U
  pub has : L → U → Bool
  pub same : U → U → Bool
  pub same_refl : (u : U) → same u u ≡ true
  pub size_view : (l : L) → core.size l ≡ length (view l)
  pub get_view : (l : L) (i : ℕ) → core.get_any l i ≡ get_elem? (view l) i
  pub one_index :
      (l : L) (u : U) (i j : ℕ)
      → get_elem? (view l) i ≡ some u
      → get_elem? (view l) j ≡ some u
      → i ≡ j
  pub find_has : (l : L) (u : U) → has l u ≡ true → get_elem? (view l) (core.find u l) ≡ some u
  pub find_absent : (l : L) (u : U) → has l u ≡ false → core.find u l ≡ not_in_collection
  pub insert_index :
      (l : L) (u : U) → get_elem? (view (core.insert u l).0) (core.insert u l).1.0 ≡ some u
  pub insert_new : (l : L) (u : U) → (core.insert u l).1.1 ≡ not (has l u)
  pub has_insert : (l : L) (u v : U) → has (core.insert u l).0 v ≡ (same u v || has l v)
  pub has_remove : (l : L) (u v : U) → has (core.remove u l) v ≡ (not (same u v) && has l v)
  pub has_remove_all : (l : L) (u : U) → has (core.remove_all l) u ≡ false

-- `get` throws for a key that is absent, and so does `erase`.
pub record CoreDictionary {ℓ κ} (L : Type ℓ) (U : Type κ) : Type (ℓ ⊔ κ) where
  pub size : L → ℕ
  pub get_pair : L → ℕ → Option (Bytes × U)
  pub find_any_key : Bytes → L → ℕ
  pub get : Bytes → L → Option U
  pub insert : Bytes → U → L → L
  pub erase : Bytes → L → Option L

pub record CoreDictionaryLaws {ℓ κ} {L : Type ℓ} {U : Type κ} (core : CoreDictionary L U)
    : Type (ℓ ⊔ κ) where
  pub view : L → List (Bytes × U)
  pub size_view : (l : L) → core.size l ≡ length (view l)
  pub get_pair_view : (l : L) (i : ℕ) → core.get_pair l i ≡ get_elem? (view l) i
  pub get_view : (l : L) (key : Bytes) → core.get key l ≡ lookup key (view l)
  pub distinct :
      (l : L) (i j : ℕ) (p q : Bytes × U)
      → get_elem? (view l) i ≡ some p
      → get_elem? (view l) j ≡ some q
      → p.0 ≡ q.0
      → i ≡ j
  pub find_present :
      (l : L) (key : Bytes) (u : U)
      → core.get key l ≡ some u
      → get_elem? (view l) (core.find_any_key key l) ≡ some (key, u)
  pub find_absent :
      (l : L) (key : Bytes) → core.get key l ≡ none → core.find_any_key key l ≡ not_in_collection
  pub get_insert :
      (l : L) (key other : Bytes) (u : U)
      → core.get other (core.insert key u l)
        ≡ (if bytes_eq other key then some u else core.get other l)
  pub erase_absent : (l : L) (key : Bytes) → core.get key l ≡ none → core.erase key l ≡ none
  pub erase_present :
      (l : L) (key : Bytes) (u : U)
      → core.get key l ≡ some u
      → (next : L) × (core.erase key l ≡ some next)
        × ((other : Bytes)
            → core.get other next ≡ (if bytes_eq other key then none else core.get other l))
