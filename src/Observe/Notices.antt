-- ===== src/Observe/Notices.antt =====
-- include/cpprealm/observation.hpp: what the block is told of one change, and the loop that collects it.
use realm_cpp.Prelude.{
  ℕ, suc, ◌≡◌, refl, subst, ◌⊎◌, List, [], ◌∷◌, ◌++◌, append_assoc, map, Bool, true, false, not,
  ◌&&◌, ◌||◌, Option, none, some, length, length-append, get_elem?, arith, if◌then◌else◌, ◌==◌,
  ==_iff, ==_refl, Bool-cases, inl, inr,
}
use realm_cpp.Prelude.Bytes.{Bytes}
use realm_cpp.Schema.{Property}
use realm_cpp.Observe.{
  ChangeSet, Event, befores, afters, value_at, no_items, property_changes, PropertyChange,
  forward_change, changed, count,
}
use realm_cpp.Observe.Safety.{property_changes_cons}

get_elem?-map {ℓ} :
    {V : Type ℓ} (f : Bytes → V) (done : List Bytes) (name : Bytes) (todo : List Bytes)
    → get_elem? (map f (done ++ name ∷ todo)) (length done) ≡ some (f name)
get_elem?-map f [] name todo = refl
get_elem?-map f (x ∷ done) name todo = get_elem?-map f done name todo

value_at-map {ℓ} :
    {V : Type ℓ} (f : Bytes → V) (done : List Bytes) (name : Bytes) (todo : List Bytes)
    → value_at (map f (done ++ name ∷ todo)) (length done) ≡ some (some (f name))
unfolding value_at no_items
value_at-map f [] name todo = refl
value_at-map f (x ∷ done) name todo = rw (get_elem?-map f done name todo)

-- What the block is told of one property.
unfoldable pub paired {ℓ} : {V : Type ℓ} → (Bytes → V) → (Bytes → V) → Bytes → PropertyChange V
paired old new name = record {
  name = name;
  old_value = some (old name);
  new_value = some (new name);
}

property_changes-paired {ℓ} :
    {V : Type ℓ} (old new : Bytes → V) (done todo : List Bytes)
    → property_changes (length done) todo (map old (done ++ todo)) (map new (done ++ todo))
      ≡ some (map (paired old new) todo)
unfolding property_changes paired
property_changes-paired old new done [] = refl
property_changes-paired old new done (name ∷ todo) =
    let told = map (paired old new) todo in
    property_changes_cons (length done) name todo _ _ _ _ told (value_at-map old done name todo)
      (value_at-map new done name todo)
      (subst
        (λ (xs : List Bytes).
          property_changes (suc (length done)) todo (map old xs) (map new xs) ≡ some told)
        (append_assoc done (name ∷ []) todo)
        (subst
          (λ (n : ℕ).
            property_changes n todo (map old ((done ++ name ∷ []) ++ todo))
              (map new ((done ++ name ∷ []) ++ todo))
            ≡ some told)
          (omega (arith, length-append done (name ∷ [])))
          (property_changes-paired old new (done ++ name ∷ []) todo)))

pub forward_change-paired {ℓ κ} :
    {V : Type ℓ} {Error : Type κ} (old new : Bytes → V) (names : List Bytes)
    → forward_change {Error = Error} names (map old names) (map new names)
      ≡ some (record {
        object = true;
        is_deleted = false;
        error = none;
        property_changes = map (paired old new) names;
      })
unfolding forward_change
forward_change-paired old new names = rw (forward_change, property_changes-paired old new [] names)

-- Whether a change set names a column.
unfoldable pub is_listed : ℕ → List ℕ → Bool
is_listed k [] = false
is_listed k (x ∷ xs) = if x == k then true else is_listed k xs

is_listed-count : (k : ℕ) (xs : List ℕ) → count k xs ≡ is_listed k xs
unfolding is_listed count
is_listed-count k [] = refl
is_listed-count k (x ∷ xs) = elim (Bool-cases (x == k)) [
  | inl e ↦ rw (e, (==_iff x k).0 e, ==_refl k) refl
  | inr e ↦ ground (arith, is_listed-count k xs)
]

-- The names of the properties of a schema whose columns are listed, in the order of the schema.
unfoldable pub listed_names {ℓ κ} :
    {Obj : Type ℓ} {V : Type κ} → (Bytes → ℕ) → List ℕ → List (Property Obj V) → List Bytes
listed_names column_key columns [] = []
listed_names column_key columns (q ∷ qs) =
    (if is_listed (column_key q.name) columns then q.name ∷ [] else [])
    ++ listed_names column_key columns qs

pub changed-listed_names {ℓ κ} :
    {Obj : Type ℓ} {V : Type κ} (column_key : Bytes → ℕ) (c : ChangeSet)
    (qs : List (Property Obj V))
    → changed column_key c qs ≡ listed_names column_key c.columns qs
unfolding changed listed_names
changed-listed_names column_key c [] = refl
changed-listed_names column_key c (q ∷ qs) =
    rw (is_listed-count (column_key q.name) c.columns, changed-listed_names column_key c qs)
      (elim (Bool-cases (is_listed (column_key q.name) c.columns)) [
        | inl e ↦ rw e refl
        | inr e ↦ rw e refl
      ])

-- One change: the object before it, the object after it, and the change set.
abbrev pub Cycle {ℓ} : Type ℓ → Type ℓ
Cycle Obj = (Obj × Obj) × ChangeSet

-- Whether the object is deleted after a change.
unfoldable pub gone : Bool → ChangeSet → Bool
gone deleted c = deleted || (not c.empty && not (no_items c.deletions))

unfoldable pub calls {ℓ κ} :
    {Obj : Type ℓ} {Error : Type κ} → List (Cycle Obj) → List (Event Obj Error)
calls [] = []
calls (((old, new), c) ∷ ys) = befores old c ∷ afters new c ∷ calls ys

pub no_columns {ℓ κ} :
    {Obj : Type ℓ} {V : Type κ} (column_key : Bytes → ℕ) (c : ChangeSet)
    (qs : List (Property Obj V))
    → c.columns ≡ []
    → changed column_key c qs ≡ []
unfolding changed count
no_columns column_key c [] e = refl
no_columns column_key c (q ∷ qs) e = ground (arith, no_columns column_key c qs e)

abbrev pub names_if_any : List Bytes → Option (List Bytes)
names_if_any [] = none
names_if_any (n ∷ ns) = some (n ∷ ns)

pub gone_alive :
    (d : Bool) (c : ChangeSet) → (c.empty ≡ true) ⊎ (no_items c.deletions ≡ true) → gone d c ≡ d
unfolding gone
gone_alive d c e = ground arith

pub gone_deleted :
    (d : Bool) (c : ChangeSet) → c.empty ≡ false → no_items c.deletions ≡ false → gone d c ≡ true
unfolding gone
gone_deleted d c e n = ground arith
