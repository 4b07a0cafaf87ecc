-- ===== src/Observe/Tests.antt =====
-- The theorems about notifications, at a concrete object and at concrete collections.
use realm_cpp.Prelude.{
  ℕ, String, ◌≡◌, refl, List, [], ◌∷◌, ◌++◌, Bool, true, false, not, none, some, map,
}
use realm_cpp.Prelude.Bytes.{Bytes, codes, bytes_eq}
use realm_cpp.Schema.{Property, ResultType, property_value_for_name, is_collection}
use realm_cpp.Observe.Dictionaries.{DictionaryChangeSet, empty_change, notify_all}
use realm_cpp.Observe.Dictionaries.Reports.{keys_told, lists_key, notify_all-keys_told}
use realm_cpp.Observe.{
  ChangeSet, Wrapper, Event, befores, afters, errors, ObjectChange, run, no_items, forward_end,
  value_of,
}
use realm_cpp.Observe.Safety.{run-Inv-some}
use realm_cpp.Observe.Notices.{listed_names, is_listed, Cycle, gone, paired, calls}
use realm_cpp.Observe.Cycles.{run-calls, notices, notice, told}
use realm_cpp.Observe.Collections.{run_collection, no_change}
use realm_cpp.Observe.Collections.Reports.{run_collection-reports, reports, reported}

-- An object is a pair of numbers, `age` and `size`, in the columns 3 and 4.
abbrev field : String → (ℕ × ℕ → ℕ) → Property (ℕ × ℕ) ℕ
field name value = record {
  name = codes name;
  type_flags = record {
    is_array = false;
    is_dictionary = false;
    is_set = false;
    is_nullable = false;
  };
  is_primary_key = false;
  result = ResultType.other;
  value = value;
}

abbrev age : Property (ℕ × ℕ) ℕ
age = field "age" (λ o. o.0)

abbrev size : Property (ℕ × ℕ) ℕ
size = field "size" (λ o. o.1)

abbrev column : Bytes → ℕ
column name = elim (bytes_eq name (codes "age")) [ true ↦ 3 | false ↦ 4 ]

abbrev set_of : Bool → List ℕ → List ℕ → Bool → ChangeSet
set_of empty deletions columns root = record {
  empty = empty;
  deletions = deletions;
  insertions = [];
  modifications = [];
  columns = columns;
  collection_root_was_deleted = root;
}

abbrev fresh : Wrapper ℕ ℕ
fresh = record { property_names = none; old_values = none; deleted = false; delivered = [] }

-- Two calls before a change and one after it, and an error.
abbrev unpaired : List (Event (ℕ × ℕ) ℕ)
unpaired =
    befores (1, 2) (set_of false [] (4 ∷ []) false)
    ∷ befores (1, 3) (set_of true [] [] false)
    ∷ afters (1, 4) (set_of false [] (3 ∷ []) false)
    ∷ errors (some 5)
    ∷ []

run-Inv-some_example : (t : Wrapper ℕ ℕ) × (run 0 column age (size ∷ []) unpaired fresh ≡ some t)
run-Inv-some_example =
    let r = run-Inv-some 0 column age (size ∷ []) unpaired fresh (λ vs h. cc) in (r.0, r.1)

-- The age and the size change, then the size, then the object is deleted.
abbrev story : List (Cycle (ℕ × ℕ))
story =
    (((0, 2), (1, 3)), set_of false [] (4 ∷ 3 ∷ []) false)
    ∷ (((1, 2), (1, 7)), set_of false [] (4 ∷ []) false)
    ∷ (((1, 7), (1, 7)), set_of false (0 ∷ []) [] false)
    ∷ []

abbrev both : ObjectChange ℕ ℕ
both = record {
  object = true;
  is_deleted = false;
  error = none;
  property_changes =
      record { name = codes "age"; old_value = some 0; new_value = some 1 }
      ∷ record { name = codes "size"; old_value = some 2; new_value = some 3 }
      ∷ [];
}

abbrev resized : ObjectChange ℕ ℕ
resized = record {
  object = true;
  is_deleted = false;
  error = none;
  property_changes = record { name = codes "size"; old_value = some 2; new_value = some 7 } ∷ [];
}

abbrev removed : ObjectChange ℕ ℕ
removed = record { object = false; is_deleted = true; error = none; property_changes = [] }

run-calls_example :
    (e : Bool) × (run 0 column age (size ∷ []) (calls story) fresh
      ≡ some (record {
        property_names = none;
        old_values = none;
        deleted = e;
        delivered = both ∷ resized ∷ removed ∷ [];
      }))
unfolding notices notice gone told paired listed_names is_listed value_of no_items forward_end
    property_value_for_name is_collection bytes_eq
run-calls_example = run-calls 0 column age (size ∷ []) story false []

-- The owner of an empty collection is deleted: nothing is reported after the first call.
abbrev sets : List ChangeSet
sets = set_of false [] [] true ∷ set_of false (2 ∷ []) [] false ∷ []

run_collection-reports_example :
    run_collection (set_of true [] [] false ∷ sets) (record { ignore_changes = true; handled = [] })
    ≡ record {
      ignore_changes = false;
      handled =
          no_change
          ∷ record {
            deletions = 2 ∷ [];
            insertions = [];
            modifications = [];
            collection_root_was_deleted = false;
          }
          ∷ [];
    }
unfolding reports reported no_items
run_collection-reports_example =
    (run_collection-reports (set_of true [] [] false) sets []
      ((λ e. (refl, refl, refl)), ((λ e. cc), ((λ e. cc), tt)))).1

-- A key is set, then the owner of the dictionary, which is empty by then, is deleted.
abbrev key_sets : List (DictionaryChangeSet ℕ)
key_sets =
    record {
      deletions = [];
      insertions = 5 ∷ [];
      modifications = [];
      collection_root_was_deleted = false;
    }
    ∷ record {
      deletions = [];
      insertions = [];
      modifications = [];
      collection_root_was_deleted = true;
    }
    ∷ []

abbrev one_byte : ℕ → Bytes
one_byte n = n ∷ []

notify_all-keys_told_example :
    (notify_all one_byte key_sets [] ≡ [] ++ map (keys_told one_byte) key_sets)
    × ((c : DictionaryChangeSet ℕ)
        → empty_change (keys_told one_byte c) ≡ not (lists_key one_byte c))
notify_all-keys_told_example = notify_all-keys_told one_byte key_sets []
