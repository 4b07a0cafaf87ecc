-- ===== src/Database/Columns/Stored.antt =====
-- src/cpprealm/internal/bridge/obj.cpp: what a list has after set_list_values.
use realm_cpp.Prelude.{
  ◌≡◌, refl, sym, ap, ◌∙◌, List, [], ◌∷◌, ◌++◌, append-nil, append_assoc, Option, none, some,
  length, length-snoc, map,
}
use realm_cpp.Containers.Core.{CoreList, CoreListLaws}
use realm_cpp.Database.Columns.{
  CoreColumn, ListValues, plain, numbers, bools, mixeds, optionals, pushed_values, optional_value,
  number_values, add_values, insert_values, set_list_values,
}

-- An insertion at most at the end puts the value between those before and behind; set_list_values of
-- realm-core replaces what the list has.
pub record CoreColumnLaws {ℓ κ} {L : Type ℓ} {U : Type κ} {core : CoreList L U}
    (laws : CoreListLaws core) (column : CoreColumn L U) : Type (ℓ ⊔ κ) where
  pub inserted :
      (u : U) (l : L) (front back : List U)
      → laws.view l ≡ front ++ back
      → (next : L) × (column.insert (length front) u l ≡ some next)
        × (laws.view next ≡ front ++ (u ∷ back))
  pub replaced : (us : List U) (l : L) → laws.view (column.set_all us l) ≡ us

module _ {ℓ κ ι} {L : Type ℓ} {U : Type κ} {T : Type ι} (core : CoreList L U)
    (laws : CoreListLaws core) (column : CoreColumn L U) (rules : CoreColumnLaws laws column)
    (convert : T → U) where
  open laws use {view, add_view}

  -- A value that is there is converted, and one that is not is null.
  unfoldable pub stored_option : Option T → U
  stored_option (some t) = convert t
  stored_option none = column.null

  optional_value-stored_option :
      (o : Option T) → optional_value core column convert o ≡ stored_option o
  unfolding optional_value stored_option
  optional_value-stored_option (some t) = refl
  optional_value-stored_option none = refl

  map-optional_value :
      (os : List (Option T)) → map (optional_value core column convert) os ≡ map stored_option os
  map-optional_value [] = refl
  map-optional_value (o ∷ os) = rw (optional_value-stored_option o, map-optional_value os) refl

  -- The values for realm-core.
  unfoldable pub stored_values : ListValues T → List U
  stored_values (plain values) = map convert values
  stored_values (numbers values) = map stored_option values
  stored_values (bools values) = map convert values
  stored_values (mixeds values) = map convert values
  stored_values (optionals values) = map stored_option values

  -- What is kept of the old values, in front of the new ones.
  unfoldable pub kept_in_front : ListValues T → List U → List U
  kept_in_front (bools values) old = old
  kept_in_front (plain values) old = []
  kept_in_front (numbers values) old = []
  kept_in_front (mixeds values) old = []
  kept_in_front (optionals values) old = []

  -- What is kept of the old values, behind the new ones.
  unfoldable pub kept_behind : ListValues T → List U → List U
  kept_behind (mixeds values) old = old
  kept_behind (optionals values) old = old
  kept_behind (plain values) old = []
  kept_behind (numbers values) old = []
  kept_behind (bools values) old = []

  pushed_values-map :
      (ts : List T) (v : List U) → pushed_values core column convert ts v ≡ v ++ map convert ts
  unfolding pushed_values
  pushed_values-map [] v = sym (append-nil v)
  pushed_values-map (t ∷ ts) v =
      pushed_values-map ts (v ++ convert t ∷ []) ∙ append_assoc v (convert t ∷ []) (map convert ts)

  number_values-map :
      (ts : List (Option T))
      → number_values core column convert ts ≡ map (optional_value core column convert) ts
  unfolding number_values
  number_values-map [] = refl
  number_values-map (o ∷ ts) =
      ap (λ us. optional_value core column convert o ∷ us) (number_values-map ts)

  add_values-map :
      (ts : List T) (l : L) → view (add_values core column convert ts l) ≡ view l ++ map convert ts
  unfolding add_values
  add_values-map [] l = sym (append-nil (view l))
  add_values-map (t ∷ ts) l =
      add_values-map ts (core.add (convert t) l)
      ∙ ap (λ us. us ++ map convert ts) (add_view (convert t) l)
      ∙ append_assoc (view l) (convert t ∷ []) (map convert ts)

  -- Whether a result is a list that holds `us`.
  abbrev Holds : Option L → List U → Type (ℓ ⊔ κ)
  Holds o us = (next : L) × (o ≡ some next) × (view next ≡ us)

  insert_values-map {μ} :
      {A : Type μ} (value : A → U) (as' : List A) (l : L) (front back : List U)
      → view l ≡ front ++ back
      → Holds
          (insert_values core column convert value (length front) as' l)
          (front ++ (map value as' ++ back))
  unfolding insert_values
  insert_values-map value [] l front back e = (l, refl, e)
  insert_values-map value (a ∷ as') l front back e =
      let r = rules.inserted (value a) l front back e in
      let rest =
        insert_values-map value as' r.0 (front ++ value a ∷ []) back
          (r.2 ∙ sym (append_assoc front (value a ∷ []) back)) in
      (
        rest.0,
        rw (insert_values, r.1)
            (ap (λ n. insert_values core column convert value n as' r.0)
                (sym (length-snoc front (value a)))
              ∙ rest.1),
        rest.2 ∙ append_assoc front (value a ∷ []) (map value as' ++ back),
      )

  -- `set_list_values` never throws. The list has the new values in their order afterwards; the old ones
  -- are gone, but for three kinds of overload: those for mixed and for optionals of texts, keys,
  -- identifiers, bytes and timestamps keep them behind the new values, and the one for bool in front.
  pub set_list_values_lem :
      (values : ListValues T) (l : L)
      → (next : L) × (set_list_values core column convert values l ≡ some next)
        × (view next
            ≡ kept_in_front values (view l)
              ++ (stored_values values ++ kept_behind values (view l)))
  unfolding set_list_values stored_values kept_in_front kept_behind
  set_list_values_lem (plain values) l = (
    column.set_all (pushed_values core column convert values []) l,
    refl,
    rules.replaced (pushed_values core column convert values []) l
        ∙ pushed_values-map values []
        ∙ sym (append-nil (map convert values)),
  )
  set_list_values_lem (numbers values) l = (
    column.set_all (number_values core column convert values) l,
    refl,
    rules.replaced (number_values core column convert values) l
        ∙ number_values-map values
        ∙ map-optional_value values
        ∙ sym (append-nil (map stored_option values)),
  )
  set_list_values_lem (bools []) l = (l, refl, sym (append-nil (view l)))
  set_list_values_lem (bools (t ∷ values)) l = (
    add_values core column convert (t ∷ values) l,
    refl,
    add_values-map (t ∷ values) l
        ∙ ap (λ us. view l ++ us) (sym (append-nil (map convert (t ∷ values)))),
  )
  set_list_values_lem (mixeds values) l = insert_values-map convert values l [] (view l) refl
  set_list_values_lem (optionals values) l =
      let inserted =
        insert_values-map (optional_value core column convert) values l [] (view l) refl in
      (inserted.0, inserted.1, inserted.2 ∙ ap (λ us. us ++ view l) (map-optional_value values))
