-- ===== src/Database/Collections/Maps.antt =====
-- include/cpprealm/accessors.hpp: what maps have after they are set from values in memory, and their
-- way back into memory by detach of include/cpprealm/managed_dictionary.hpp.
use realm_cpp.Prelude.{
  ℕ, suc, ◌<◌, ◌≡◌, refl, sym, ap, subst, ◌∙◌, inl, inr, Bool-cases, List, [], ◌∷◌, Option, none,
  some, if◌then◌else◌, map,
}
use realm_cpp.Prelude.Bytes.{Bytes, bytes_eq, bytes_eq_iff, bytes_eq_sym}
use realm_cpp.Containers.{called, finished}
use realm_cpp.Containers.Core.{CoreDictionary, CoreDictionaryLaws, lookup, not_in_collection}
use realm_cpp.Containers.Map.{Entries, detach, read_box}
use realm_cpp.Containers.Map.Memory.{Distinct, or_held, lookup-here, lookup-there, lookup-map}
use realm_cpp.Containers.Map.Laws.{detach-read_box}
use realm_cpp.Database.Collections.{ValueType, mapped_value, set_entries}
use mathlib.Core.Option

module _ {ℓ} {U : Type ℓ} where
  -- An entry that is inserted before others with other keys.
  pub inserted-or_held :
      (k key : Bytes) (u : U) (us : List (Bytes × U)) (held now : Option U)
      → lookup k us ≡ none
      → now ≡ (if bytes_eq key k then some u else held)
      → or_held (lookup key us) now ≡ or_held (lookup key ((k, u) ∷ us)) held
  unfolding or_held
  inserted-or_held k key u us held now absent e = elim (Bool-cases (bytes_eq k key)) [
    | inl b ↦
        let gone : lookup key us ≡ none =
          subst (λ j. lookup j us ≡ none) ((bytes_eq_iff k key).0 b) absent in
        ap (λ o. or_held o now) gone
        ∙ e
        ∙ ap (λ c. if c then some u else held) (bytes_eq_sym key k ∙ b)
        ∙ sym (ap (λ o. or_held o held) (lookup-here key (k, u) us b))
    | inr b ↦
        ap (or_held (lookup key us))
          (e ∙ ap (λ c. if c then some u else held) (bytes_eq_sym key k ∙ b))
        ∙ sym (ap (λ o. or_held o held) (lookup-there key (k, u) us b))
  ]

module _ {ℓ κ ι μ} {L : Type ℓ} {U : Type κ} {T : Type ι} {E : Type μ} (core : CoreDictionary L U)
    (laws : CoreDictionaryLaws core) (null : U) (type : ValueType T E U) where
  open core use {get}
  open laws use {get_insert}

  abbrev entries_for_core : List (Bytes × T) → List (Bytes × U)
  entries_for_core es = map (λ p. (p.0, mapped_value null type p.1)) es

  get-set_entries :
      (es : List (Bytes × T)) (l : L) (key : Bytes)
      → Distinct es
      → get key (set_entries core null type es l)
        ≡ or_held (lookup key (entries_for_core es)) (get key l)
  unfolding set_entries or_held Distinct lookup
  get-set_entries [] l key d = refl
  get-set_entries ((k, v) ∷ es) l key d =
      let u = mapped_value null type v in
      get-set_entries es (core.insert k u l) key d.1
      ∙ inserted-or_held k key u (entries_for_core es) (get key l) (get key (core.insert k u l))
          (lookup-map (mapped_value null type) k es ∙ ap (Option.map (mapped_value null type)) d.0)
          (get_insert l k key u)

module _ {ℓ} {A : Type ℓ} where
  called-injective : (o p : Option A) → called o ≡ called p → o ≡ p
  unfolding called
  called-injective none none e = refl
  called-injective none (some b) e = cc
  called-injective (some a) none e = cc
  called-injective (some a) (some b) e = cc

module _ {ℓ κ ι μ} {L : Type ℓ} {U : Type κ} {T : Type ι} {E : Type μ} (core : CoreDictionary L U)
    (laws : CoreDictionaryLaws core) (null : U) (type : ValueType T E U) (serialize : T → U)
    (deserialize : U → T) (back : (t : T) → deserialize (mapped_value null type t) ≡ t) where
  open core use {size, get}

  back_all : (o : Option T) → Option.map deserialize (Option.map (mapped_value null type) o) ≡ o
  back_all none = refl
  back_all (some t) = ap some (back t)

  map-or_held :
      (o held : Option U)
      → Option.map deserialize (or_held o held)
        ≡ or_held (Option.map deserialize o) (Option.map deserialize held)
  unfolding or_held
  map-or_held none held = refl
  map-or_held (some u) held = refl

  -- A map that accessor<std::map<std::string, T>>::set has written is read back by detach, which ends:
  -- for every key it has the value in memory, and for the other keys what the dictionary had. The keys
  -- in memory must be distinct, the size must be below `size_t(-1)`, and the conversion of a value
  -- undone by the conversion back.
  pub detach-set_entries :
      (address : ℕ) (es : List (Bytes × T)) (l : L)
      → Distinct es
      → size (set_entries core null type es l) < not_in_collection
      → (m : Entries T) × (detach core serialize deserialize
            (suc (size (set_entries core null type es l)))
            address
            (set_entries core null type es l)
          ≡ finished m)
        × ((key : Bytes) → m key ≡ or_held (lookup key es) (Option.map deserialize (get key l)))
  unfolding read_box
  detach-set_entries address es l d bound =
      let next = set_entries core null type es l in
      let r = detach-read_box core laws serialize deserialize address next bound in
      (
        r.0,
        r.1,
        λ key.
            called-injective (r.0 key) (Option.map deserialize (get key next)) (r.2 key)
            ∙ ap (Option.map deserialize) (get-set_entries core laws null type es l key d)
            ∙ map-or_held (lookup key (entries_for_core core laws null type es)) (get key l)
            ∙ ap (λ o. or_held o (Option.map deserialize (get key l)))
                (ap (Option.map deserialize) (lookup-map (mapped_value null type) key es)
                  ∙ back_all (lookup key es)),
      )
