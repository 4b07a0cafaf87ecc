-- ===== src/Containers/Set/Laws.antt =====
-- include/cpprealm/managed_set.hpp: what insert, find and erase of a managed set do.
use realm_cpp.Prelude.{
  ℕ, zero, suc, inl, inr, ◌≡◌, refl, ap, ◌∙◌, sym, List, [], ◌∷◌, Bool, true, false, not, some,
  ◌==◌, if◌then◌else◌, length, get_elem?, arith, Bool-cases, ◌<◌, ◌&&◌, ◌||◌, ==_refl,
}
use realm_cpp.Containers.{Outcome, returned, noexcept, called, Iterator, is_equal, end}
use realm_cpp.Containers.Core.{CoreSet, CoreSetLaws, not_in_collection}
use realm_cpp.Containers.Objects.{Table, made_object}
use realm_cpp.Containers.Set.{primitive_set, insert, find, erase, insert_object, insert_object_at}
use mathlib.Core.Option

or-or : (a b : Bool) → (a || (a || b)) ≡ (a || b)
or-or true b = refl
or-or false b = refl

not-or : (a b : Bool) → (not a && (a || b)) ≡ (not a && b)
not-or true b = refl
not-or false b = refl

module _ {ℓ κ ι} {L : Type ℓ} {U : Type κ} {T : Type ι} (core : CoreSet L U)
    (laws : CoreSetLaws core) (serialize : T → U) (deserialize : U → T)
    (back : (t : T) → deserialize (serialize t) ≡ t) where
  open laws use {
    view, has, same, same_refl, size_view, get_view, one_index, find_has, find_absent, insert_index,
    insert_new, has_insert, has_remove,
  }

  -- What `*it` gives.
  abbrev pub target : Iterator → L → Outcome T
  target it l = (primitive_set core serialize deserialize).element l it.m_i

  target-some :
      (l : L) (i address : ℕ) (t : T)
      → get_elem? (view l) i ≡ some (serialize t)
      → target (record { m_i = i; m_parent = address }) l ≡ returned t
  unfolding primitive_set noexcept called
  target-some l i address t e =
      ap (λ o. noexcept (called (Option.map deserialize o))) (get_view l i ∙ e)
      ∙ ap returned (back t)

  get_elem?_bound : (xs : List U) (i : ℕ) (u : U) → get_elem? xs i ≡ some u → i < length xs
  get_elem?_bound [] i u e = cc
  get_elem?_bound (x ∷ xs) zero u e = omega arith
  get_elem?_bound (x ∷ xs) (suc i) u e = omega (arith, get_elem?_bound xs i u e)

  -- The index that realm-core finds is not the one for absent values.
  find-within :
      (u : U) (l : L)
      → core.size l < not_in_collection
      → has l u ≡ true
      → (core.find u l < core.size l) × ((core.find u l == not_in_collection) ≡ false)
  find-within u l bound h =
      let below = get_elem?_bound (view l) (core.find u l) u (find_has l u h) in
      let sized = size_view l in (omega (arith, sized, below), ground (arith, sized, below, bound))

  find-present :
      (address : ℕ) (t : T) (l : L) (i : ℕ)
      → core.size l < not_in_collection
      → has l (serialize t) ≡ true
      → get_elem? (view l) i ≡ some (serialize t)
      → find core serialize deserialize address t l ≡ record { m_i = i; m_parent = address }
  unfolding find
  find-present address t l i bound h e =
      rw (find, (find-within (serialize t) l bound h).1)
        (ap (λ (n : ℕ). record { m_i = n; m_parent = address })
          (one_index l (serialize t) _ _ (find_has l (serialize t) h) e))

  -- `find` gives `end()` exactly for the values that the set has not. The size must be below the index
  -- `size_t(-1)`, as in the next theorem.
  pub is_equal-find :
      (address : ℕ) (t : T) (l : L)
      → core.size l < not_in_collection
      → is_equal
          (find core serialize deserialize address t l)
          (end (primitive_set core serialize deserialize) address l)
        ≡ not (has l (serialize t))
  unfolding find primitive_set is_equal
  is_equal-find address t l bound = elim (Bool-cases (has l (serialize t))) [
    | inl h ↦
        let w = find-within (serialize t) l bound h in
        let b : (core.find (serialize t) l == core.size l) ≡ false = ground (arith, w.0) in
        rw (find, w.1, is_equal, ==_refl address, b, h) refl
    | inr h ↦
        rw (find, find_absent l (serialize t) h, is_equal, ==_refl address, h)
          (==_refl (core.size l))
  ]

  has-inserted : (u : U) (l : L) → has (core.insert u l).0 u ≡ true
  has-inserted u l = has_insert l u u ∙ ap (λ b. b || has l u) (same_refl u)

  erase-target :
      (i address : ℕ) (t : T) (l : L)
      → target (record { m_i = i; m_parent = address }) l ≡ returned t
      → erase core serialize deserialize (record { m_i = i; m_parent = address }) l
        ≡ returned (core.remove (serialize t) l)
  unfolding erase primitive_set
  erase-target i address t l e = rw (erase, e) refl

  -- `insert` reports a value as new exactly when the set did not have it; its iterator points to the
  -- value, and is the one that `find` gives afterwards; the set then has the value beside those that
  -- it had. `erase` of that iterator takes exactly the value away again. The size afterwards must be
  -- below `size_t(-1)`, and the conversion of a value undone by the conversion back.
  pub find-insert :
      (address : ℕ) (t : T) (l : L)
      → core.size (insert core serialize deserialize address t l).0 < not_in_collection
      → ((insert core serialize deserialize address t l).1.1 ≡ not (has l (serialize t)))
        × (target
              (insert core serialize deserialize address t l).1.0
              (insert core serialize deserialize address t l).0
            ≡ returned t)
        × (find core serialize deserialize address t
              (insert core serialize deserialize address t l).0
            ≡ (insert core serialize deserialize address t l).1.0)
        × ((u : U)
            → has (insert core serialize deserialize address t l).0 u
              ≡ (same (serialize t) u || has l u))
        × ((next : L) × (erase core serialize deserialize
                (insert core serialize deserialize address t l).1.0
                (insert core serialize deserialize address t l).0
              ≡ returned next)
            × ((u : U) → has next u ≡ (not (same (serialize t) u) && has l u)))
  unfolding insert
  find-insert address t l bound =
      let s = serialize t in
      let after = (core.insert s l).0 in
      let there = target-some after (core.insert s l).1.0 address t (insert_index l s) in
      (
        insert_new l s,
        there,
        find-present address t after (core.insert s l).1.0 bound (has-inserted s l)
            (insert_index l s),
        (λ u. has_insert l s u),
        (
          core.remove s after,
          erase-target (core.insert s l).1.0 address t after there,
          λ u.
              has_remove after s u
              ∙ ap (λ b. not (same s u) && b) (has_insert l s u)
              ∙ not-or (same s u) (has l u),
        ),
      )

module _ {ℓ κ ι μ} {L : Type ℓ} {State : Type κ} {T : Type ι} {Key : Type μ} (core : CoreSet L Key)
    (laws : CoreSetLaws core) (table : Table State T Key) where
  open laws use {view, has, same, same_refl, insert_index, insert_new, has_insert}

  -- A key that is inserted once, or a second time.
  insert_again :
      (once : Bool) (k : Key) (l : L)
      → ((core.insert k (if once then l else (core.insert k l).0)).1.1 ≡ (once && not (has l k)))
        × ((j : Key)
            → has (core.insert k (if once then l else (core.insert k l).0)).0 j
              ≡ (same k j || has l j))
  insert_again true k l = (insert_new l k, λ j. has_insert l k j)
  insert_again false k l = (
    insert_new (core.insert k l).0 k
        ∙ ap not (has_insert l k k ∙ ap (λ b. b || has l k) (same_refl k)),
    λ j.
        has_insert (core.insert k l).0 k j
        ∙ ap (λ b. same k j || b) (has_insert l k j)
        ∙ or-or (same k j) (has l j),
  )

  -- `insert(T *)` makes the object, and the set has its key afterwards, to which the iterator points;
  -- the key is added once more than `insert(hint, T *)` does, with the same values in the set. But
  -- unless the class is embedded it never reports the object as new, whether it is or not.
  pub insert_object-insert_object_at :
      (address : ℕ) (value : T) (st : State) (l : L)
      → let r = insert_object core table address value st l in
        let key = (made_object table value st).1 in
        let hinted = insert_object_at core table address value st l in
        (r.1.1 ≡ (table.is_embedded && not (has l key)))
        × (get_elem? (view r.0.1) r.1.0.m_i ≡ some key)
        × ((k : Key) → has r.0.1 k ≡ (same key k || has l k))
        × (r.0.0 ≡ hinted.0.0)
        × ((k : Key) → has r.0.1 k ≡ has hinted.0.1 k)
  unfolding insert_object insert_object_at
  insert_object-insert_object_at address value st l =
      let key = (made_object table value st).1 in
      let again = insert_again table.is_embedded key l in
      (
        again.0,
        insert_index (if table.is_embedded then l else (core.insert key l).0) key,
        again.1,
        refl,
        λ k. again.1 k ∙ sym (has_insert l key k),
      )
