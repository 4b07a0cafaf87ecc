-- ===== src/Containers/Tests.antt =====
-- The theorems about managed collections at concrete lists, sets, maps and results.
use realm_cpp.Prelude.{
  ℕ, ◌+◌, ◌≡◌, ◌<◌, refl, List, [], ◌∷◌, Bool, true, false, ◌||◌, ◌==◌, if◌then◌else◌, length,
  get_elem?, arith,
}
use realm_cpp.Prelude.Bytes.{Bytes, codes, bytes_eq}
use realm_cpp.Query.{Comparison}
use realm_cpp.Containers.{returned, thrown, called, Container, Iterator, finished, range_for}
use realm_cpp.Containers.Core.{lookup, not_in_collection, remove_at, replace_at}
use realm_cpp.Containers.Iteration.{Presents, visit, range_for-visit}
use realm_cpp.Containers.Vector.{
  VectorCall, push_back, pop_back, erase, set, at, primitive_vector, detach, call_all,
}
use realm_cpp.Containers.Vector.Memory.{on_vector_all, on_vector, without_last}
use realm_cpp.Containers.Vector.Laws.{call_all-on_vector_all, primitive_vector-Presents}
use realm_cpp.Containers.Found.{
  at_primitive, at_mixed, at_enum, at_object, primitive_results, mixed_results, enum_results,
  object_results,
}
use realm_cpp.Containers.Found.Bounds.{Gives, results-Presents}
use realm_cpp.Containers.Small.{
  Keyed, numbers, numbers-Laws, found, found-Laws, dictionary, dictionary-Laws, inserted, without,
}
use realm_cpp.Containers.Small.Texts.{texts, no_keys}
use realm_cpp.Containers.Set
use realm_cpp.Containers.Objects.{Table}
use realm_cpp.Containers.Map
use realm_cpp.Containers.Map.Laws.{read_box-assign_box}

abbrev sum : ℕ → ℕ → ℕ
sum a s = a + s

abbrev same_number : ℕ → ℕ
same_number n = n

abbrev vector : Container (List ℕ) ℕ
vector = primitive_vector numbers same_number same_number

range_for-visit_example :
    range_for vector sum 4 1000 (7 ∷ 8 ∷ 9 ∷ []) 0 ≡ finished (visit sum (7 ∷ 8 ∷ 9 ∷ []) 0)
range_for-visit_example =
    range_for-visit vector sum 1000 (7 ∷ 8 ∷ 9 ∷ []) (7 ∷ 8 ∷ 9 ∷ []) 0
      (primitive_vector-Presents numbers numbers-Laws same_number same_number (7 ∷ 8 ∷ 9 ∷ []))
      (omega arith)

-- `pop_back` throws on the empty list, and `erase` beyond the end.
abbrev calls : List (VectorCall ℕ)
calls = pop_back ∷ push_back 4 ∷ push_back 5 ∷ erase 2 ∷ set 0 6 ∷ []

call_all-on_vector_all_example :
    ((call_all numbers same_number same_number calls []).1 ≡ (on_vector_all calls []).1)
    × (detach numbers same_number same_number (call_all numbers same_number same_number calls []).0
        ≡ returned (on_vector_all calls []).0)
    × ((i : ℕ)
        → at numbers same_number same_number i (call_all numbers same_number same_number calls []).0
          ≡ called (get_elem? (on_vector_all calls []).0 i))
    × Presents vector
        (call_all numbers same_number same_number calls []).0
        (on_vector_all calls []).0
call_all-on_vector_all_example =
    call_all-on_vector_all numbers numbers-Laws same_number same_number (λ t. refl) calls []
      (omega arith)

left_by_calls : on_vector_all calls [] ≡ (6 ∷ 5 ∷ [], true ∷ false ∷ false ∷ true ∷ false ∷ [])
unfolding on_vector_all on_vector without_last remove_at replace_at
left_by_calls = refl

results-Presents_example :
    (Gives found found-Laws same_number (at_primitive found same_number) (7 ∷ 8 ∷ [])
      × Presents (primitive_results found same_number) (7 ∷ 8 ∷ []) (7 ∷ 8 ∷ []))
    × (Gives found found-Laws same_number (at_mixed found same_number) (7 ∷ 8 ∷ [])
        × Presents (mixed_results found same_number) (7 ∷ 8 ∷ []) (7 ∷ 8 ∷ []))
    × (Gives found found-Laws same_number (at_enum found same_number) (7 ∷ 8 ∷ [])
        × Presents (enum_results found same_number) (7 ∷ 8 ∷ []) (7 ∷ 8 ∷ []))
    × (Gives found found-Laws same_number (at_object found same_number) (7 ∷ 8 ∷ [])
        × Presents (object_results found same_number) (7 ∷ 8 ∷ []) (7 ∷ 8 ∷ []))
results-Presents_example = results-Presents found found-Laws same_number (7 ∷ 8 ∷ [])

abbrev same_text : Bytes → Bytes
same_text t = t

abbrev fox : Bytes
fox = codes "fox"

abbrev with_fox : Keyed × (Iterator × Bool)
with_fox = Set.insert texts same_text same_text 1000 fox no_keys

with_fox-Bounded : length with_fox.0.0 < not_in_collection
unfolding Set.insert no_keys inserted without lookup
with_fox-Bounded = omega arith

-- A class of objects whose key is their name.
abbrev names : Table (List Bytes) Bytes Bytes
names = record {
  has_primary_key = true;
  is_embedded = false;
  create_object = λ st. (st, []);
  create_object_with_primary_key = λ value st. (value ∷ st, value);
  set_properties = λ key value st. st;
}

abbrev fox_map : Keyed
fox_map = Map.assign_box dictionary same_number same_number fox 3 no_keys

fox_map-Bounded : length fox_map.0 < not_in_collection
unfolding Map.assign_box no_keys inserted without
fox_map-Bounded = omega arith

no_keys-Bounded : length no_keys.0 < not_in_collection
unfolding no_keys
no_keys-Bounded = omega arith

read_box-assign_box_example :
    ((other : Bytes)
      → Map.read_box dictionary same_number same_number other fox_map ≡ (
          if bytes_eq other fox
          then returned 3
          else Map.read_box dictionary same_number same_number other no_keys))
    × ((other : Bytes)
        → Map.contains_key dictionary same_number same_number other fox_map ≡ (
            bytes_eq other fox
            || Map.contains_key dictionary same_number same_number other no_keys))
    × ((it : Iterator) × (Map.find dictionary same_number same_number false 1000 fox fox_map
          ≡ returned it)
        × (Container.element (Map.map_container dictionary same_number same_number) fox_map it.m_i
            ≡ returned (fox, 3)))
    × ((next : Keyed) × (Map.erase dictionary same_number same_number fox fox_map ≡ returned next)
        × ((other : Bytes)
            → Map.read_box dictionary same_number same_number other next ≡ (
                if bytes_eq other fox
                then thrown
                else Map.read_box dictionary same_number same_number other no_keys)))
read_box-assign_box_example =
    read_box-assign_box dictionary dictionary-Laws same_number same_number (λ t. refl) 1000 fox 3
      no_keys no_keys-Bounded fox_map-Bounded

-- The comparison of numbers, and a row whose column 1 is the entry of every key.
abbrev number_test : Comparison → ℕ → ℕ → Bool
number_test op v rhs = v == rhs
