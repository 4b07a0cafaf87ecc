-- ===== src/Database/Links/Gaps.antt =====
-- include/cpprealm/accessors.hpp: lists of embedded objects with null pointers in them.
use realm_cpp.Prelude.{
  ℕ, suc, ◌≤◌, ◌<◌, ◌≡◌, refl, ap, List, [], ◌∷◌, Bool, true, false, Option, none, some, length,
  arith,
}
use realm_cpp.Containers.Core.{CoreList, CoreListLaws}
use realm_cpp.Containers.Objects.{Table}
use realm_cpp.Database.Links.{Embedded, by_table, set_up, set_link_at, set_links}

-- create_and_insert_linked_object(i) makes a list longer by one, and throws if `i` is beyond its end.
pub record EmbeddedLaws {ℓ κ ι} {State : Type ℓ} {L : Type κ} {Key : Type ι} {core : CoreList L Key}
    (laws : CoreListLaws core) (embedded : Embedded State L Key) : Type (ℓ ⊔ κ ⊔ ι) where
  pub inserted :
      (i : ℕ) (st : State) (l : L)
      → i ≤ length (laws.view l)
      → (made : (State × L) × Key) × (embedded.create_and_insert i st l ≡ some made)
        × (length (laws.view made.0.1) ≡ suc (length (laws.view l)))
  pub beyond :
      (i : ℕ) (st : State) (l : L)
      → length (laws.view l) < i
      → embedded.create_and_insert i st l ≡ none

module _ {ℓ} {A : Type ℓ} where
  unfoldable pub is_none : Option A → Bool
  is_none none = true
  is_none (some a) = false

  -- Whether a pointer is not null.
  unfoldable pub has_object : List (Option A) → Bool
  has_object [] = false
  has_object (none ∷ vs) = has_object vs
  has_object (some v ∷ vs) = true

  -- Whether a pointer that is not null stands behind one that is.
  unfoldable pub has_gap : List (Option A) → Bool
  has_gap [] = false
  has_gap (none ∷ vs) = has_object vs
  has_gap (some v ∷ vs) = has_gap vs

module _ {ℓ κ ι μ} {State : Type ℓ} {L : Type κ} {T : Type ι} {Key : Type μ} (core : CoreList L Key)
    (laws : CoreListLaws core) (table : Table State T Key) (embedded : Embedded State L Key)
    (set_all : Key → T → State → Option State) (rules : EmbeddedLaws laws embedded)
    (returns : (key : Key) (v : T) (st : State)
      → (next : State) × (set_all key v st ≡ some next)) where
  open laws use {view}
  open table use {has_primary_key, is_embedded}

  by_table_embedded :
      has_primary_key ≡ false → is_embedded ≡ true → by_table core table embedded set_all ≡ false
  unfolding by_table
  by_table_embedded k e = rw (by_table, k, e) refl

  -- The list is shorter than the index, so that the next object is out of range.
  set_links_behind :
      (k : has_primary_key ≡ false) (e : is_embedded ≡ true) (i : ℕ) (vs : List (Option T))
      (st : State) (l : L)
      → length (view l) < i
      → is_none (set_links core table embedded set_all i vs st l) ≡ has_object vs
  unfolding set_links set_link_at is_none has_object
  set_links_behind k e i [] st l h = refl
  set_links_behind k e i (none ∷ vs) st l h = set_links_behind k e (suc i) vs st l (omega arith)
  set_links_behind k e i (some v ∷ vs) st l h =
      rw (set_links, set_link_at, by_table_embedded k e, rules.beyond i st l h) refl

  set_links_at_end :
      (k : has_primary_key ≡ false) (e : is_embedded ≡ true) (i : ℕ) (vs : List (Option T))
      (st : State) (l : L)
      → length (view l) ≡ i
      → is_none (set_links core table embedded set_all i vs st l) ≡ has_gap vs
  unfolding set_links set_link_at set_up is_none has_gap
  set_links_at_end k e i [] st l h = refl
  set_links_at_end k e i (none ∷ vs) st l h = set_links_behind k e (suc i) vs st l (omega arith)
  set_links_at_end k e i (some v ∷ vs) st l h =
      let r = rules.inserted i st l (omega arith) in
      let longer = r.2 in
      let changed = returns r.0.1 v r.0.0.0 in
      rw (set_links, set_link_at, by_table_embedded k e, r.1, set_up, changed.1)
        (set_links_at_end k e (suc i) vs changed.0 r.0.0.1 (omega (arith, longer, h)))

  -- On an empty list of embedded objects, if setting the properties of each embedded object does not
  -- throw, accessor<std::vector<T*>>::set throws exactly if a pointer that is not null stands behind
  -- a null pointer. It is assumed that setting those properties does not change the list itself.
  pub set_links-has_gap :
      (k : has_primary_key ≡ false) (e : is_embedded ≡ true) (vs : List (Option T)) (st : State)
      (l : L)
      → view l ≡ []
      → is_none (set_links core table embedded set_all 0 vs st l) ≡ has_gap vs
  set_links-has_gap k e vs st l h = set_links_at_end k e 0 vs st l (ap length h)
