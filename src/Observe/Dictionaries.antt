-- ===== src/Observe/Dictionaries.antt =====
-- src/cpprealm/internal/bridge/dictionary.cpp: the wrapper of add_key_based_notification_callback, and
-- the changes of include/cpprealm/internal/bridge/dictionary.hpp that the handler of a dictionary is
-- told.
--
-- `get_string` is that of realm-core's Mixed, on the keys. The state is the history of the calls.
pub mod Reports
use realm_cpp.Prelude.{List, [], ◌∷◌, ◌++◌, map, Bool, true, false, not, ◌&&◌, if◌then◌else◌}
use realm_cpp.Prelude.Bytes.{Bytes}

-- realm-core's DictionaryChangeSet
pub record DictionaryChangeSet {ℓ} (Key : Type ℓ) : Type ℓ where
  pub deletions : List Key
  pub insertions : List Key
  pub modifications : List Key
  pub collection_root_was_deleted : Bool

-- dictionary_collection_change
pub record DictionaryChange : Type 0 where
  pub insertions : List Bytes
  pub modifications : List Bytes
  pub deletions : List Bytes
  pub collection_root_was_deleted : Bool

unfoldable pub no_keys {ℓ} : {A : Type ℓ} → List A → Bool
no_keys [] = true
no_keys (a ∷ as') = false

-- dictionary_collection_change::empty
unfoldable pub empty_change : DictionaryChange → Bool
empty_change c =
    no_keys c.deletions
    && (no_keys c.insertions && (no_keys c.modifications && not c.collection_root_was_deleted))

-- `dictionary_collection_change()`
unfoldable pub default_change : DictionaryChange
default_change = record {
  insertions = [];
  modifications = [];
  deletions = [];
  collection_root_was_deleted = false;
}

module _ {ℓ} {Key : Type ℓ} (get_string : Key → Bytes) where
  -- `wrapper::operator()`
  pub notify : DictionaryChangeSet Key → List DictionaryChange → List DictionaryChange
  notify changes told =
      if no_keys changes.deletions && (no_keys changes.insertions && no_keys changes.modifications)
      then told ++ default_change ∷ []
      else told
        ++ record {
          insertions = map get_string changes.insertions;
          modifications = map get_string changes.modifications;
          deletions = map get_string changes.deletions;
          collection_root_was_deleted = changes.collection_root_was_deleted;
        }
          ∷ []

  pub notify_all : List (DictionaryChangeSet Key) → List DictionaryChange → List DictionaryChange
  unfolding notify
  notify_all [] told = told
  notify_all (c ∷ cs) told = notify_all cs (notify c told)
