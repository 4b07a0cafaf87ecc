-- ===== src/Database/Collections/Tests.antt =====
-- The theorems about maps that are set from values in memory, at small ones.
use realm_cpp.Prelude.{
  ℕ, zero, suc, ◌≡◌, ◌<◌, refl, List, [], ◌∷◌, false, Option, none, some, length, map, arith,
}
use realm_cpp.Prelude.Bytes.{Bytes, codes, bytes_eq}
use realm_cpp.Containers.{finished}
use realm_cpp.Containers.Core.{lookup, not_in_collection}
use realm_cpp.Containers.Objects.{Table}
use realm_cpp.Containers.Map.{Entries, detach}
use realm_cpp.Containers.Map.Memory.{Distinct, or_held}
use realm_cpp.Containers.Small.{Keyed, dictionary, dictionary-Laws, inserted, get-inserted, without}
use realm_cpp.Containers.Small.Texts.{no_keys}
use realm_cpp.Database.Links.Appended.{made_objects}
use realm_cpp.Database.Collections.{
  ValueType, optional_enum, mapped_value, set_entries, DictionaryObjects, set_linked,
}
use realm_cpp.Database.Collections.Maps.{detach-set_entries}
use realm_cpp.Database.Collections.Linked.{DictionaryObjectsLaws, linked_entries, get-set_linked}
use mathlib.Core.Option

-- Optional levels, with zero for null.
abbrev level_of : Option ℕ → ℕ
level_of none = 0
level_of (some n) = suc n

abbrev of_level : ℕ → Option ℕ
of_level zero = none
of_level (suc n) = some n

abbrev levels : ValueType (Option ℕ) ℕ ℕ
levels = optional_enum (λ o. o) suc

of_level-level : (o : Option ℕ) → of_level (mapped_value 0 levels o) ≡ o
unfolding mapped_value
of_level-level none = refl
of_level-level (some n) = refl

abbrev volumes : List (Bytes × Option ℕ)
volumes = (codes "fox", some 3) ∷ (codes "cat", none) ∷ []

volumes-Distinct : Distinct volumes
unfolding Distinct lookup bytes_eq
volumes-Distinct = (refl, (refl, tt))

volumes-Bounded : length (set_entries dictionary 0 levels volumes no_keys).0 < not_in_collection
unfolding set_entries mapped_value no_keys inserted without bytes_eq
volumes-Bounded = omega arith

detach-set_entries_example :
    (m : Entries (Option ℕ)) × (detach dictionary level_of of_level
        (suc (length (set_entries dictionary 0 levels volumes no_keys).0))
        1000
        (set_entries dictionary 0 levels volumes no_keys)
      ≡ finished m)
    × ((key : Bytes)
        → m key ≡ or_held (lookup key volumes) (Option.map of_level (lookup key no_keys.0)))
detach-set_entries_example =
    detach-set_entries dictionary dictionary-Laws 0 levels level_of of_level of_level-level 1000
      volumes no_keys volumes-Distinct volumes-Bounded

-- Objects without a primary key, numbered from 1 on, where zero is null.
abbrev counted : Table ℕ ℕ ℕ
counted = record {
  has_primary_key = false;
  is_embedded = false;
  create_object = λ st. (suc st, suc st);
  create_object_with_primary_key = λ value st. (suc st, suc st);
  set_properties = λ key value st. st;
}

abbrev counted_entries : DictionaryObjects ℕ Keyed ℕ ℕ ℕ
counted_entries = record {
  create_and_insert = λ k st l. ((suc st, inserted k (suc st) l), suc st);
  create_and_insert_by_key = λ k v st l. ((suc st, inserted k (suc st) l), suc st);
  link = λ key. key;
}

abbrev counted_entries-Laws : DictionaryObjectsLaws dictionary counted counted_entries
counted_entries-Laws = record {
  created = λ k st l. (refl, refl);
  created_by_key = λ k v st l. (refl, refl);
  get_created = λ k other st l. get-inserted l k other (suc st);
  get_created_by_key = λ k other v st l. get-inserted l k other (suc st);
}

abbrev owners : List (Bytes × Option ℕ)
owners = (codes "fox", some 20) ∷ (codes "cat", none) ∷ []

owners-Distinct : Distinct owners
unfolding Distinct lookup bytes_eq
owners-Distinct = (refl, (refl, tt))

get-set_linked_example :
    ((set_linked dictionary 0 counted counted_entries owners 5 no_keys).0
      ≡ (made_objects counted (map (λ e. e.1) owners) 5).0)
    × ((key : Bytes)
        → lookup key (set_linked dictionary 0 counted counted_entries owners 5 no_keys).1.0
          ≡ or_held
              (lookup key (
                linked_entries dictionary dictionary-Laws 0 counted counted_entries
                  counted_entries-Laws owners 5))
              (lookup key no_keys.0))
get-set_linked_example =
    get-set_linked dictionary dictionary-Laws 0 counted counted_entries counted_entries-Laws owners
      5 no_keys owners-Distinct
