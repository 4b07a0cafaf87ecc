-- ===== src/Database/Links/Appended.antt =====
-- include/cpprealm/accessors.hpp and managed_list.hpp: links to objects that are not embedded.
use realm_cpp.Prelude.{
  ℕ, suc, inl, inr, Bool-cases, ◌≡◌, refl, sym, ap, ◌∙◌, List, [], ◌∷◌, ◌++◌, append-nil,
  append_assoc, true, false, Option, none, some, ◌⊎◌, Option-cases, if◌then◌else◌,
}
use realm_cpp.Containers.Core.{CoreList, CoreListLaws}
use realm_cpp.Containers.Objects.{Table, made_object}
use realm_cpp.Database.Links.{
  Embedded, by_table, add_linked, created, set_up, set_link_at, set_links,
}

module _ {ℓ κ ι} {State : Type ℓ} {T : Type κ} {Key : Type ι} (table : Table State T Key) where
  -- The objects that the pointers become, one behind the other, and the state then.
  unfoldable pub made_objects : List (Option T) → State → State × List Key
  made_objects [] st = (st, [])
  made_objects (none ∷ vs) st = made_objects vs st
  made_objects (some v ∷ vs) st =
      let made = made_object table v st in
      let rest = made_objects vs made.0 in (rest.0, made.1 ∷ rest.1)

module _ {ℓ κ ι μ} {State : Type ℓ} {L : Type κ} {T : Type ι} {Key : Type μ} (core : CoreList L Key)
    (laws : CoreListLaws core) (table : Table State T Key) (embedded : Embedded State L Key)
    (set_all : Key → T → State → Option State) where
  open core use {add}
  open laws use {view, add_view}
  open table use {has_primary_key, is_embedded, create_object, create_object_with_primary_key}

  by_table_plain : is_embedded ≡ false → by_table core table embedded set_all ≡ true
  unfolding by_table
  by_table_plain e = elim (Bool-cases has_primary_key) [
    | inl h ↦ rw (by_table, h) refl
    | inr h ↦ rw (by_table, h, e) refl
  ]

  add_linked_plain :
      (key : Key) (l : L)
      → is_embedded ≡ false
      → add_linked core table embedded set_all key l ≡ add key l
  unfolding add_linked
  add_linked_plain key l e = rw (add_linked, e) refl

  abbrev pub new_object : T → State → State × Key
  new_object v st =
      if has_primary_key then create_object_with_primary_key v st else create_object st

  -- The objects that the pointers become, one behind the other, and the state then; `none` if
  -- setting the properties of one of them throws.
  unfoldable pub new_objects : List (Option T) → State → Option (State × List Key)
  new_objects [] st = some (st, [])
  new_objects (none ∷ vs) st = new_objects vs st
  new_objects (some v ∷ vs) st =
      let made = new_object v st in
      elim (set_all made.1 v made.0) [
        | none ↦ none
        | some changed ↦ elim (new_objects vs changed) [
          | none ↦ none
          | some rest ↦ some (rest.0, made.1 ∷ rest.1)
        ]
      ]

  -- An exception; or the state, and a list with some objects behind those that it had.
  abbrev pub IsAppended : L → Option (State × List Key) → Option (State × L) → Type (ℓ ⊔ κ ⊔ μ)
  IsAppended l made result =
      ((made ≡ none) × (result ≡ none))
      ⊎ ((st : State) × (ks : List Key) × (next : L) × (made ≡ some (st, ks))
          × (result ≡ some (st, next))
          × (view next ≡ view l ++ ks))

  set_link_at_null :
      (i : ℕ) (st : State) (l : L)
      → set_link_at core table embedded set_all i none st l ≡ some (st, l)
  unfolding set_link_at
  set_link_at_null i st l = refl

  set_link_at_throws :
      (plain : is_embedded ≡ false) (i : ℕ) (v : T) (st : State) (l : L)
      → set_all (new_object v st).1 v (new_object v st).0 ≡ none
      → set_link_at core table embedded set_all i (some v) st l ≡ none
  unfolding set_link_at set_up created
  set_link_at_throws plain i v st l e = rw (set_link_at, by_table_plain plain, set_up, e) refl

  set_link_at-add :
      (plain : is_embedded ≡ false) (i : ℕ) (v : T) (st changed : State) (l : L)
      → set_all (new_object v st).1 v (new_object v st).0 ≡ some changed
      → set_link_at core table embedded set_all i (some v) st l
        ≡ some (changed, add (new_object v st).1 l)
  unfolding set_link_at set_up created
  set_link_at-add plain i v st changed l e =
      rw
        (set_link_at, by_table_plain plain, set_up, e, add_linked_plain (new_object v st).1 l plain)
        refl

  -- For objects that are not embedded accessor<std::vector<T*>>::set throws exactly if setting the
  -- properties of one of the objects throws. Otherwise the list has its old values, and behind them,
  -- in order, the object of every pointer that is not null, so that an object that is added again
  -- under its primary key keeps what it linked to before. It is assumed that setting the
  -- properties of the linked objects does not change the list itself.
  pub set_links-new_objects :
      (plain : is_embedded ≡ false) (i : ℕ) (vs : List (Option T)) (st : State) (l : L)
      → IsAppended l (new_objects vs st) (set_links core table embedded set_all i vs st l)
  unfolding set_links new_objects
  set_links-new_objects plain i [] st l = inr (st, [], l, refl, refl, sym (append-nil (view l)))
  set_links-new_objects plain i (none ∷ vs) st l =
      rw (set_links, set_link_at_null i st l) (set_links-new_objects plain (suc i) vs st l)
  set_links-new_objects plain i (some v ∷ vs) st l =
      let made = new_object v st in
      elim (Option-cases (set_all made.1 v made.0)) [
        | inl e ↦
            inl (rw (new_objects, e) refl, rw (set_links, set_link_at_throws plain i v st l e) refl)
        | inr (changed, e) ↦ elim (set_links-new_objects plain (suc i) vs changed (add made.1 l)) [
          | inl (a, b) ↦ inl (
            rw (new_objects, e, a) refl,
            rw (set_links, set_link_at-add plain i v st changed l e) b,
          )
          | inr (after, ks, next, a, b, c) ↦ inr (
            after,
            made.1 ∷ ks,
            next,
            rw (new_objects, e, a) refl,
            rw (set_links, set_link_at-add plain i v st changed l e) b,
            c ∙ ap (λ us. us ++ ks) (add_view made.1 l) ∙ append_assoc (view l) (made.1 ∷ []) ks,
          )
        ]
      ]
