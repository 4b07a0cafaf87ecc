-- ===== src/Schema/Tests.antt =====
-- The theorems about schemas at a concrete class: a number, a list, a key and a backlink.
use realm_cpp.Prelude.{ℕ, ◌+◌, String, ◌≡◌, List, [], ◌∷◌, Bool, true, false, some}
use realm_cpp.Prelude.Bytes.{codes, bytes_eq}
use realm_cpp.Schema.{Property, ResultType, property_value_for_name, is_collection}
use realm_cpp.Schema.Values.{property_value_for_name_iff, first_value, before_collections}

abbrev field : String → Bool → Bool → ResultType → (ℕ → ℕ) → Property ℕ ℕ
field name array key result value = record {
  name = codes name;
  type_flags = record {
    is_array = array;
    is_dictionary = false;
    is_set = false;
    is_nullable = false;
  };
  is_primary_key = key;
  result = result;
  value = value;
}

abbrev age : Property ℕ ℕ
age = field "age" false false ResultType.other (λ o. o + 1)

abbrev others : List (Property ℕ ℕ)
others =
    field "dogs" true false (ResultType.vector_of (some (codes "Dog"))) (λ o. 0)
    ∷ field "_id" false true ResultType.other (λ o. o + 2)
    ∷ field "owners" false false ResultType.backlink (λ o. 0)
    ∷ []

-- Behind a collection the key is not found.
property_value_for_name_iff_example :
    property_value_for_name 99 true (codes "_id") 5 age others ≡ 99
unfolding first_value before_collections bytes_eq is_collection
property_value_for_name_iff_example = (property_value_for_name_iff 99 (codes "_id") 5 age others).1
