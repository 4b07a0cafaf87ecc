-- ===== src/Managed/Binary.antt =====
-- src/cpprealm/managed_binary.cpp: managed binary data and the boxes of optional ones, with the copy
-- into a vector of src/cpprealm/internal/bridge/binary.cpp.
--
-- A column is `none` for null. `none` of an operation is undefined behaviour: an index out of range
-- or a value of null. A `uint8_t` has 8 bits, so that a larger index is taken modulo 2 ^ 8.
pub mod Reads
mod Tests
use realm_cpp.Prelude.{
  ℕ, zero, suc, ◌%◌, ◌^◌, List, [], ◌∷◌, ◌++◌, Option, none, some, length, get_elem?,
}
use realm_cpp.Prelude.Bytes.{Bytes}
use realm_cpp.Managed.{Columns, store}

-- binary::operator[], which reads the memory of the data.
pub binary_element : Bytes → ℕ → Option ℕ
binary_element m_data i = get_elem? m_data i

-- The loop of binary::operator std::vector<uint8_t>, with the rounds that are left.
pub copy_elements : ℕ → ℕ → Bytes → Bytes → Option Bytes
unfolding binary_element
copy_elements zero i m_data v = some v
copy_elements (suc n) i m_data v = elim (binary_element m_data i) [
  | none ↦ none
  | some c ↦ copy_elements n (suc i) m_data (v ++ c ∷ [])
]

pub to_vector : Bytes → Option Bytes
unfolding copy_elements
to_vector m_data = copy_elements (length m_data) 0 m_data []

-- `m_obj->get<binary>(m_key)`; that of null is empty.
pub get_binary : ℕ → Columns Bytes → Bytes
get_binary m_key obj = elim (obj m_key) [ none ↦ [] | some v ↦ v ]

-- `v2.push_back(v)` and `set`, of a copy of the data.
pub push_to_copy : ℕ → ℕ → Bytes → Columns Bytes → Option (Columns Bytes)
unfolding to_vector
push_to_copy m_key v b obj = elim (to_vector b) [
  | none ↦ none
  | some v2 ↦ some (store m_key (v2 ++ v ∷ []) obj)
]

pub push_back : ℕ → ℕ → Columns Bytes → Option (Columns Bytes)
unfolding get_binary push_to_copy
push_back m_key v obj = push_to_copy m_key v (get_binary m_key obj) obj

-- box::push_back
pub push_back_box : ℕ → ℕ → Columns Bytes → Option (Columns Bytes)
unfolding push_to_copy
push_back_box m_key v obj = elim (obj m_key) [
  | none ↦ some obj
  | some b ↦ push_to_copy m_key v b obj
]

-- `operator[](uint8_t idx)`, with the number that the caller writes.
pub at_index : ℕ → ℕ → Columns Bytes → Option ℕ
unfolding get_binary binary_element
at_index m_key idx obj = binary_element (get_binary m_key obj) (idx % 2 ^ 8)

-- box::operator[]
pub at_index_box : ℕ → ℕ → Columns Bytes → Option ℕ
unfolding binary_element
at_index_box m_key idx obj = elim (obj m_key) [
  | none ↦ none
  | some b ↦ binary_element b (idx % 2 ^ 8)
]

-- `size`, of both
pub size : ℕ → Columns Bytes → ℕ
unfolding get_binary
size m_key obj = length (get_binary m_key obj)

-- The calls that change columns, each of a managed value or of a box.
pub data Push : Type 0 where
  pushes pushes_box : ℕ → Push

pub push_column : ℕ → Push → Columns Bytes → Option (Columns Bytes)
unfolding push_back push_back_box
push_column m_key (pushes v) obj = push_back m_key v obj
push_column m_key (pushes_box v) obj = push_back_box m_key v obj

pub push_all : List (ℕ × Push) → Columns Bytes → Option (Columns Bytes)
unfolding push_column
push_all [] obj = some obj
push_all ((m_key, p) ∷ ps) obj = elim (push_column m_key p obj) [
  | none ↦ none
  | some next ↦ push_all ps next
]
