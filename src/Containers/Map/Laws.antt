-- ===== src/Containers/Map/Laws.antt =====
-- include/cpprealm/managed_dictionary.hpp: what the boxes, `find`, `erase` and `detach` of a managed map
-- do.
use realm_cpp.Prelude.{
  ℕ, zero, suc, inl, inr, ◌≡◌, ◌<◌, refl, ap, ◌∙◌, sym, List, [], ◌∷◌, Bool, true, false, not, ◌||◌,
  Option, none, some, ◌==◌, if◌then◌else◌, length, get_elem?, arith, Option-cases, ==_refl, map,
  length-map,
}
use realm_cpp.Prelude.Bytes.{Bytes, bytes_eq, bytes_eq_iff}
use realm_cpp.Containers.{
  returned, thrown, noexcept, called, Iterator, finished, range_for, is_equal, end,
}
use realm_cpp.Containers.Core.{CoreDictionary, CoreDictionaryLaws, not_in_collection, lookup}
use realm_cpp.Containers.Iteration.{Presents, visit, range_for-visit}
use realm_cpp.Containers.Vector.Memory.{get_elem?-map}
use realm_cpp.Containers.Map.Memory.{
  get_elem?-Distinct, lookup-map, Distinct-map, or_held, visit-put,
}
use realm_cpp.Containers.Map.{
  Entries, put, pair_at, map_container, find, erase, contains_key, read_box, assign_box, detach,
}
use mathlib.Core.Option

if_again {ℓ} :
    {A : Type ℓ} (b : Bool) (x y z : A)
    → (if b then x else if b then y else z) ≡ (if b then x else z)
if_again true x y z = refl
if_again false x y z = refl

unfoldable is_some {ℓ} : {A : Type ℓ} → Option A → Bool
is_some none = false
is_some (some a) = true

module _ {ℓ κ ι} {L : Type ℓ} {U : Type κ} {T : Type ι} (core : CoreDictionary L U)
    (laws : CoreDictionaryLaws core) (serialize : T → U) (deserialize : U → T) where
  open core use {size, get, find_any_key}
  open laws use {
    view, size_view, get_pair_view, get_view, distinct, find_present, find_absent, get_insert,
    erase_present,
  }

  abbrev pub converted : Bytes × U → Bytes × T
  converted p = (p.0, deserialize p.1)

  abbrev pub entries : L → List (Bytes × T)
  entries l = map converted (view l)

  pub map_container-Presents :
      (l : L) → Presents (map_container core serialize deserialize) l (entries l)
  unfolding map_container pair_at noexcept called
  map_container-Presents l = (
    size_view l ∙ sym (length-map (view l) converted),
    λ i p e.
        ap (λ o. noexcept (called (Option.map converted o))) (get_pair_view l i)
        ∙ ap (λ o. noexcept (called o)) (sym (get_elem?-map converted (view l) i) ∙ e),
  )

  or_held-none : (o : Option T) → or_held o none ≡ o
  unfolding or_held
  or_held-none none = refl
  or_held-none (some v) = refl

  -- `detach` ends, and the map in memory has for every key what a box of the key reads, where an absent
  -- key stands for the exception. The size must be below the index `size_t(-1)`, as in the theorems
  -- that follow.
  pub detach-read_box :
      (address : ℕ) (l : L)
      → size l < not_in_collection
      → (m : Entries T) × (detach core serialize deserialize (suc (size l)) address l ≡ finished m)
        × ((key : Bytes) → called (m key) ≡ read_box core serialize deserialize key l)
  unfolding detach read_box
  detach-read_box address l bound =
      let n = map_container-Presents l in
      (
        visit put (entries l) (λ key. none),
        ap
              (λ n.
                range_for (map_container core serialize deserialize) put (suc n) address l
                  (λ key. none))
              n.0
            ∙ range_for-visit (map_container core serialize deserialize) put address l (entries l)
                (λ key. none) n (omega (arith, n.0, bound)),
        λ key. ap called (
            visit-put key (entries l) (λ k. none)
              (Distinct-map deserialize (view l) (get_elem?-Distinct (view l) (distinct l)))
            ∙ or_held-none (lookup key (entries l))
            ∙ lookup-map deserialize key (view l)
            ∙ ap (Option.map deserialize) (sym (get_view l key))),
      )

  entry_bound :
      (es : List (Bytes × U)) (i : ℕ) (p : Bytes × U) → get_elem? es i ≡ some p → i < length es
  entry_bound [] i p e = cc
  entry_bound (x ∷ es) zero p e = omega arith
  entry_bound (x ∷ es) (suc i) p e = omega (arith, entry_bound es i p e)

  find-within :
      (key : Bytes) (l : L) (u : U)
      → size l < not_in_collection
      → get key l ≡ some u
      → (find_any_key key l < size l) × ((find_any_key key l == not_in_collection) ≡ false)
  find-within key l u bound e =
      let below = entry_bound (view l) (find_any_key key l) (key, u) (find_present l key u e) in
      let sized = size_view l in (omega (arith, sized, below), ground (arith, sized, below, bound))

  contains_key-get :
      (key : Bytes) (l : L)
      → size l < not_in_collection
      → contains_key core serialize deserialize key l ≡ is_some (get key l)
  unfolding contains_key is_some
  contains_key-get key l bound = elim (Option-cases (get key l)) [
    | inl e ↦ rw (e, find_absent l key e) refl
    | inr (u, e) ↦ rw (e, (find-within key l u bound e).1) refl
  ]

  -- Outside of a query `find` gives `end()` exactly for the keys that `contains_key` denies; in a query
  -- it throws.
  pub find-contains_key :
      (address : ℕ) (key : Bytes) (l : L)
      → size l < not_in_collection
      → (it : Iterator) × (find core serialize deserialize false address key l ≡ returned it)
        × (is_equal it (end (map_container core serialize deserialize) address l)
            ≡ not (contains_key core serialize deserialize key l))
        × (find core serialize deserialize true address key l ≡ thrown)
  unfolding find map_container is_equal is_some
  find-contains_key address key l bound = elim (Option-cases (get key l)) [
    | inl e ↦ (
      record { m_i = size l; m_parent = address },
      rw (find, find_absent l key e) refl,
      rw (contains_key-get key l bound, e, is_equal, ==_refl address) (==_refl (size l)),
      refl,
    )
    | inr (u, e) ↦
        let w = find-within key l u bound e in
        let b : (find_any_key key l == size l) ≡ false = ground (arith, w.0) in
        (
          record { m_i = find_any_key key l; m_parent = address },
          rw (find, w.1) refl,
          rw (contains_key-get key l bound, e, is_equal, ==_refl address, b) refl,
          refl,
        )
  ]

  called-if :
      (b : Bool) (o p : Option U)
      → called (Option.map deserialize (if b then o else p))
        ≡ (if b then called (Option.map deserialize o) else called (Option.map deserialize p))
  called-if true o p = refl
  called-if false o p = refl

  is_some-if :
      (b : Bool) (u : U) (o : Option U) → is_some (if b then some u else o) ≡ (b || is_some o)
  unfolding is_some
  is_some-if true u o = refl
  is_some-if false u o = refl

  find-present :
      (address : ℕ) (key : Bytes) (l : L) (u : U)
      → size l < not_in_collection
      → get key l ≡ some u
      → find core serialize deserialize false address key l
        ≡ returned (record { m_i = find_any_key key l; m_parent = address })
  unfolding find
  find-present address key l u bound e = rw (find, (find-within key l u bound e).1) refl

  element-present :
      (key : Bytes) (l : L) (u : U)
      → get key l ≡ some u
      → (map_container core serialize deserialize).element l (find_any_key key l)
        ≡ returned (key, deserialize u)
  element-present key l u e =
      (map_container-Presents l).1 (find_any_key key l) (key, deserialize u)
        (get_elem?-map converted (view l) (find_any_key key l)
          ∙ ap (Option.map converted) (find_present l key u e))

  -- What is assigned to a box is read back from it, and every other box reads as before. The map then
  -- contains the key beside those it contained, and `find` gives an iterator to the key and the value.
  -- To erase the key then succeeds, and leaves it absent and the others as they were. The conversion
  -- of a value must be undone by the conversion back.
  pub read_box-assign_box :
      (back : (t : T) → deserialize (serialize t) ≡ t) (address : ℕ) (key : Bytes) (v : T) (l : L)
      → size l < not_in_collection
      → size (assign_box core serialize deserialize key v l) < not_in_collection
      → ((other : Bytes)
          → read_box core serialize deserialize other
              (assign_box core serialize deserialize key v l)
            ≡ (if bytes_eq other key
                then returned v
                else read_box core serialize deserialize other l))
        × ((other : Bytes)
            → contains_key core serialize deserialize other
                (assign_box core serialize deserialize key v l)
              ≡ (bytes_eq other key || contains_key core serialize deserialize other l))
        × ((it : Iterator) × (find core serialize deserialize false address key
                (assign_box core serialize deserialize key v l)
              ≡ returned it)
            × ((map_container core serialize deserialize).element
                  (assign_box core serialize deserialize key v l)
                  it.m_i
                ≡ returned (key, v)))
        × ((next : L) × (erase core serialize deserialize key
                (assign_box core serialize deserialize key v l)
              ≡ returned next)
            × ((other : Bytes)
                → read_box core serialize deserialize other next ≡ (
                    if bytes_eq other key
                    then thrown
                    else read_box core serialize deserialize other l)))
  unfolding assign_box read_box erase called
  read_box-assign_box back address key v l old bound =
      let after = assign_box core serialize deserialize key v l in
      let held =
        get_insert l key key (serialize v)
        ∙ ap (λ b. if b then some (serialize v) else get key l) ((bytes_eq_iff key key).1 refl) in
      let r = erase_present after key (serialize v) held in
      (
        (λ other.
            ap (λ o. called (Option.map deserialize o)) (get_insert l key other (serialize v))
            ∙ called-if (bytes_eq other key) (some (serialize v)) (get other l)
            ∙ ap
                (λ t.
                  if bytes_eq other key
                  then returned t
                  else called (Option.map deserialize (get other l)))
                (back v)),
        (λ other.
            contains_key-get other after bound
            ∙ ap is_some (get_insert l key other (serialize v))
            ∙ is_some-if (bytes_eq other key) (serialize v) (get other l)
            ∙ ap (λ c. bytes_eq other key || c) (sym (contains_key-get other l old))),
        (
          record { m_i = find_any_key key after; m_parent = address },
          find-present address key after (serialize v) bound held,
          element-present key after (serialize v) held ∙ ap (λ t. returned (key, t)) (back v),
        ),
        (
          r.0,
          ap called r.1,
          λ other.
              ap (λ o. called (Option.map deserialize o))
                (r.2 other
                  ∙ ap (λ o. if bytes_eq other key then none else o)
                      (get_insert l key other (serialize v))
                  ∙ if_again (bytes_eq other key) none (some (serialize v)) (get other l))
              ∙ called-if (bytes_eq other key) none (get other l),
        ),
      )
