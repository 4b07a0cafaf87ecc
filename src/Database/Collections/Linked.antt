-- ===== src/Database/Collections/Linked.antt =====
-- include/cpprealm/accessors.hpp: what maps of objects have after they are set from values in memory.
use realm_cpp.Prelude.{
  ◌≡◌, refl, ap, sym, ◌∙◌, inl, inr, Bool-cases, List, [], ◌∷◌, Bool, true, false, Option, none,
  some, if◌then◌else◌, map,
}
use realm_cpp.Prelude.Bytes.{Bytes, bytes_eq}
use realm_cpp.Containers.Core.{CoreDictionary, CoreDictionaryLaws, lookup}
use realm_cpp.Containers.Objects.{Table, made_object}
use realm_cpp.Containers.Map.Memory.{Distinct, or_held, lookup-here, lookup-there}
use realm_cpp.Database.Links.Appended.{made_objects}
use realm_cpp.Database.Collections.{DictionaryObjects, create_entry, set_linked}
use realm_cpp.Database.Collections.Maps.{inserted-or_held}

-- realm-core makes an object as its table does, and links the key of the dictionary to it.
pub record DictionaryObjectsLaws {ℓ κ ι μ ν} {State : Type ℓ} {L : Type κ} {U : Type ι} {T : Type μ}
    {Key : Type ν} (core : CoreDictionary L U) (table : Table State T Key)
    (objects : DictionaryObjects State L U T Key) : Type (ℓ ⊔ κ ⊔ ι ⊔ μ ⊔ ν) where
  pub created :
      (k : Bytes) (st : State) (l : L)
      → ((objects.create_and_insert k st l).0.0 ≡ (table.create_object st).0)
        × ((objects.create_and_insert k st l).1 ≡ (table.create_object st).1)
  pub created_by_key :
      (k : Bytes) (v : T) (st : State) (l : L)
      → ((objects.create_and_insert_by_key k v st l).0.0
          ≡ (table.create_object_with_primary_key v st).0)
        × ((objects.create_and_insert_by_key k v st l).1
            ≡ (table.create_object_with_primary_key v st).1)
  pub get_created :
      (k other : Bytes) (st : State) (l : L)
      → core.get other (objects.create_and_insert k st l).0.1 ≡ (
          if bytes_eq other k
          then some (objects.link (objects.create_and_insert k st l).1)
          else core.get other l)
  pub get_created_by_key :
      (k other : Bytes) (v : T) (st : State) (l : L)
      → core.get other (objects.create_and_insert_by_key k v st l).0.1 ≡ (
          if bytes_eq other k
          then some (objects.link (objects.create_and_insert_by_key k v st l).1)
          else core.get other l)

module _ {ℓ κ ι μ ν} {State : Type ℓ} {L : Type κ} {U : Type ι} {T : Type μ} {Key : Type ν}
    (core : CoreDictionary L U) (laws : CoreDictionaryLaws core) (null : U)
    (table : Table State T Key) (objects : DictionaryObjects State L U T Key)
    (rules : DictionaryObjectsLaws core table objects) where
  open core use {get, insert}
  open laws use {get_insert}
  open objects use {link}

  -- The entries that a map of objects is given, where the objects are made in order.
  unfoldable pub linked_entries : List (Bytes × Option T) → State → List (Bytes × U)
  linked_entries [] st = []
  linked_entries ((k, none) ∷ es) st = (k, null) ∷ linked_entries es st
  linked_entries ((k, some v) ∷ es) st =
      let made = made_object table v st in (k, link made.1) ∷ linked_entries es made.0

  if_same {ο} :
      {A : Type ο} (b : Bool) (x y : A)
      → (if b then x else if b then x else y) ≡ (if b then x else y)
  if_same true x y = refl
  if_same false x y = refl

  -- An entry that is made as an object of the table is made, and its key linked to it once more.
  abbrev MadeAs : Bytes → T → L → (State × L) × Key → State × Key → Type (ℓ ⊔ ι)
  MadeAs k v l made base =
      (table.set_properties made.1 v made.0.0 ≡ table.set_properties base.1 v base.0)
      × ((key : Bytes)
          → get key (insert k (link made.1) made.0.1)
            ≡ (if bytes_eq key k then some (link base.1) else get key l))

  made_as :
      (k : Bytes) (v : T) (l : L) (made : (State × L) × Key) (base : State × Key)
      → (made.0.0 ≡ base.0) × (made.1 ≡ base.1)
      → ((other : Bytes)
          → get other made.0.1 ≡ (if bytes_eq other k then some (link made.1) else get other l))
      → MadeAs k v l made base
  made_as k v l made base e g = (
    ap (λ q. table.set_properties q v made.0.0) e.1 ∙ ap (table.set_properties base.1 v) e.0,
    λ key.
        get_insert made.0.1 k key (link made.1)
        ∙ ap (λ o. if bytes_eq key k then some (link made.1) else o) (g key)
        ∙ if_same (bytes_eq key k) (some (link made.1)) (get key l)
        ∙ ap (λ q. if bytes_eq key k then some (link q) else get key l) e.1,
  )

  create_entry-made_object :
      (k : Bytes) (v : T) (st : State) (l : L)
      → let made = create_entry core null table objects k v st l in
        (table.set_properties made.1 v made.0.0 ≡ (made_object table v st).0)
        × ((key : Bytes)
            → get key (insert k (link made.1) made.0.1)
              ≡ (if bytes_eq key k then some (link (made_object table v st).1) else get key l))
  unfolding create_entry made_object
  create_entry-made_object k v st l = elim (Bool-cases table.has_primary_key) [
    | inl h ↦
        rw (create_entry, made_object, h)
          (made_as k v l (objects.create_and_insert_by_key k v st l)
            (table.create_object_with_primary_key v st) (rules.created_by_key k v st l)
            (λ other. rules.get_created_by_key k other v st l))
    | inr h ↦
        rw (create_entry, made_object, h)
          (made_as k v l (objects.create_and_insert k st l) (table.create_object st)
            (rules.created k st l) (λ other. rules.get_created k other st l))
  ]

  lookup-linked_entries :
      (k : Bytes) (es : List (Bytes × Option T)) (st : State)
      → lookup k es ≡ none
      → lookup k (linked_entries es st) ≡ none
  unfolding lookup linked_entries
  lookup-linked_entries k [] st e = refl
  lookup-linked_entries k ((j, none) ∷ es) st e = elim (Bool-cases (bytes_eq j k)) [
    | inl b ↦ let there = sym (lookup-here k (j, none) es b) ∙ e in cc
    | inr b ↦
        lookup-there k (j, null) (linked_entries es st) b
        ∙ lookup-linked_entries k es st (sym (lookup-there k (j, none) es b) ∙ e)
  ]
  lookup-linked_entries k ((j, some v) ∷ es) st e = elim (Bool-cases (bytes_eq j k)) [
    | inl b ↦ let there = sym (lookup-here k (j, some v) es b) ∙ e in cc
    | inr b ↦
        let made = made_object table v st in
        lookup-there k (j, link made.1) (linked_entries es made.0) b
        ∙ lookup-linked_entries k es made.0 (sym (lookup-there k (j, some v) es b) ∙ e)
  ]

  -- After accessor<std::map<std::string, T*>>::set the objects of the pointers that are not null have
  -- been made, in order, and the dictionary links each key to its object, or has null for a null
  -- pointer; the other keys have what they had. The keys in memory must be distinct.
  pub get-set_linked :
      (es : List (Bytes × Option T)) (st : State) (l : L)
      → Distinct es
      → ((set_linked core null table objects es st l).0
          ≡ (made_objects table (map (λ e. e.1) es) st).0)
        × ((key : Bytes)
            → get key (set_linked core null table objects es st l).1
              ≡ or_held (lookup key (linked_entries es st)) (get key l))
  unfolding set_linked made_objects linked_entries Distinct or_held lookup
  get-set_linked [] st l d = (refl, λ key. refl)
  get-set_linked ((k, none) ∷ es) st l d =
      let rest = get-set_linked es st (insert k null l) d.1 in
      (
        rest.0,
        λ key.
            rest.1 key
            ∙ inserted-or_held k key null (linked_entries es st) (get key l)
                (get key (insert k null l)) (lookup-linked_entries k es st d.0)
                (get_insert l k key null),
      )
  get-set_linked ((k, some v) ∷ es) st l d =
      let made = create_entry core null table objects k v st l in
      let made_so = made_object table v st in
      let step = create_entry-made_object k v st l in
      let next = insert k (link made.1) made.0.1 in
      let rest = get-set_linked es (table.set_properties made.1 v made.0.0) next d.1 in
      (
        rest.0 ∙ ap (λ s. (made_objects table (map (λ e. e.1) es) s).0) step.0,
        λ key.
            rest.1 key
            ∙ ap (λ s. or_held (lookup key (linked_entries es s)) (get key next)) step.0
            ∙ inserted-or_held k key (link made_so.1) (linked_entries es made_so.0) (get key l)
                (get key next) (lookup-linked_entries k es made_so.0 d.0) (step.1 key),
      )
