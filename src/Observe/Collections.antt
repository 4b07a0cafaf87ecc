-- ===== src/Observe/Collections.antt =====
-- include/cpprealm/observation.hpp: collection_callback_wrapper, for lists, sets and dictionaries; and
-- include/cpprealm/results.hpp: results_callback_wrapper, for query results.
--
-- A state holds the flag and the history of the handler's calls.
pub mod Reports
use realm_cpp.Prelude.{
  ◌≡◌, refl, sym, ap, ◌∙◌, List, [], ◌∷◌, ◌++◌, append-nil, append_assoc, map, Bool, true, false,
  not, ◌&&◌, ◌||◌, if◌then◌else◌, ℕ, All, arith, Bool-cases,
}
use realm_cpp.Observe.{ChangeSet, no_items}

pub record CollectionChange : Type 0 where
  pub deletions : List ℕ
  pub insertions : List ℕ
  pub modifications : List ℕ
  pub collection_root_was_deleted : Bool

-- collection_change::empty
pub empty : CollectionChange → Bool
empty c =
    no_items c.deletions
    && (no_items c.insertions && (no_items c.modifications && not c.collection_root_was_deleted))

pub record CollectionCallback : Type 0 where
  pub ignore_changes : Bool
  pub handled : List CollectionChange

-- `{{},{},{}}`
abbrev pub no_change : CollectionChange
no_change = record {
  deletions = [];
  insertions = [];
  modifications = [];
  collection_root_was_deleted = false;
}

-- `{to_vector(...), to_vector(...), to_vector(...)}`
abbrev pub to_change : ChangeSet → CollectionChange
to_change c = record {
  deletions = c.deletions;
  insertions = c.insertions;
  modifications = c.modifications;
  collection_root_was_deleted = false;
}

-- collection_callback_wrapper::after
pub after_collection : ChangeSet → CollectionCallback → CollectionCallback
after_collection c s =
    if s.ignore_changes
    then record { ignore_changes = false; handled = s.handled ++ no_change ∷ [] }
    else if c.empty
    then record s { handled = s.handled ++ no_change ∷ [] }
    else if not c.collection_root_was_deleted || not (no_items c.deletions)
    then record s { handled = s.handled ++ to_change c ∷ [] }
    else s

pub run_collection : List ChangeSet → CollectionCallback → CollectionCallback
run_collection [] s = s
run_collection (c ∷ cs) s = run_collection cs (after_collection c s)

-- results_common_base::results_change
pub record ResultsChange {ℓ} (Derived : Type ℓ) : Type ℓ where
  pub collection : Derived
  pub deletions : List ℕ
  pub insertions : List ℕ
  pub modifications : List ℕ
  pub collection_root_was_deleted : Bool

pub record ResultsCallback {ℓ} (Derived : Type ℓ) : Type ℓ where
  pub collection : Derived
  pub ignore_changes : Bool
  pub handled : List (ResultsChange Derived)

module _ {ℓ} {Derived : Type ℓ} where
  abbrev pub tagged : Derived → CollectionChange → ResultsChange Derived
  tagged d c = record {
    collection = d;
    deletions = c.deletions;
    insertions = c.insertions;
    modifications = c.modifications;
    collection_root_was_deleted = c.collection_root_was_deleted;
  }

  -- The constructor; `ignore_initial_notification` is true unless it is given.
  pub make_results_callback : Derived → Bool → ResultsCallback Derived
  make_results_callback c ignore = record { collection = c; ignore_changes = ignore; handled = [] }

  -- results_callback_wrapper::after
  pub after_results : ChangeSet → ResultsCallback Derived → ResultsCallback Derived
  after_results c s =
      if s.ignore_changes
      then record s {
        ignore_changes = false;
        handled =
            s.handled
            ++ record {
              collection = s.collection;
              deletions = [];
              insertions = [];
              modifications = [];
              collection_root_was_deleted = false;
            }
              ∷ [];
      }
      else if c.empty
      then record s {
        handled =
            s.handled
            ++ record {
              collection = s.collection;
              deletions = [];
              insertions = [];
              modifications = [];
              collection_root_was_deleted = false;
            }
              ∷ [];
      }
      else if not c.collection_root_was_deleted || not (no_items c.deletions)
      then record s {
        handled =
            s.handled
            ++ record {
              collection = s.collection;
              deletions = c.deletions;
              insertions = c.insertions;
              modifications = c.modifications;
              collection_root_was_deleted = false;
            }
              ∷ [];
      }
      else s

  pub run_results : List ChangeSet → ResultsCallback Derived → ResultsCallback Derived
  run_results [] s = s
  run_results (c ∷ cs) s = run_results cs (after_results c s)
