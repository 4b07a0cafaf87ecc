-- ===== src/Managed/Binary/Reads.antt =====
-- src/cpprealm/managed_binary.cpp: what is read of binary data after it has been changed.
use realm_cpp.Prelude.{
  get_elem?-behind, length-snoc, ℕ, ◌%◌, ◌^◌, ◌≡◌, refl, sym, ap, ◌∙◌, List, [], ◌∷◌, ◌++◌, true,
  false, Option, none, some, length, get_elem?, ◌==◌, ==_iff, Bool-cases, inl, inr, Option-cases,
  if◌then◌else◌, append-nil, append_assoc,
}
use realm_cpp.Prelude.Bytes.{Bytes}
use realm_cpp.Managed.{Columns, store}
use realm_cpp.Managed.Binary.{
  binary_element, copy_elements, to_vector, get_binary, push_to_copy, push_back, push_back_box,
  at_index, at_index_box, size, Push, pushes, pushes_box, push_column, push_all,
}

copy_elements-append :
    (xs ys v : Bytes) → copy_elements (length ys) (length xs) (xs ++ ys) v ≡ some (v ++ ys)
unfolding copy_elements binary_element
copy_elements-append xs [] v = ap some (sym (append-nil v))
copy_elements-append xs (c ∷ ys) v =
    rw (copy_elements, binary_element, get_elem?-behind xs ys c)
      (ap (λ i. copy_elements (length ys) i (xs ++ c ∷ ys) (v ++ c ∷ [])) (sym (length-snoc xs c))
        ∙ ap (λ m. copy_elements (length ys) (length (xs ++ c ∷ [])) m (v ++ c ∷ []))
            (sym (append_assoc xs (c ∷ []) ys))
        ∙ copy_elements-append (xs ++ c ∷ []) ys (v ++ c ∷ [])
        ∙ ap some (append_assoc v (c ∷ []) ys))

-- The loop copies all bytes.
to_vector_lem : (m_data : Bytes) → to_vector m_data ≡ some m_data
unfolding to_vector
to_vector_lem m_data = copy_elements-append [] m_data []

-- The value of a column after a call.
unfoldable pub column_after : Push → Option Bytes → Option Bytes
column_after (pushes v) none = some (v ∷ [])
column_after (pushes v) (some b) = some (b ++ v ∷ [])
column_after (pushes_box v) none = none
column_after (pushes_box v) (some b) = some (b ++ v ∷ [])

-- The value of the column `k` after several.
unfoldable pub column_after_all : ℕ → List (ℕ × Push) → Option Bytes → Option Bytes
column_after_all k [] o = o
column_after_all k ((m_key, p) ∷ ps) o = elim (k == m_key) [
  | true ↦ column_after_all k ps (column_after p o)
  | false ↦ column_after_all k ps o
]

copied_store :
    (m_key v : ℕ) (b : Bytes) (obj : Columns Bytes)
    → push_to_copy m_key v b obj ≡ some (store m_key (b ++ v ∷ []) obj)
unfolding push_to_copy
copied_store m_key v b obj = rw (push_to_copy, to_vector_lem b) refl

-- The columns after a call: only the one that it is on changes.
abbrev Pushed : ℕ → Push → Columns Bytes → Option (Columns Bytes) → Type 0
Pushed m_key p obj r =
    (next : Columns Bytes) × (r ≡ some next)
    × ((k : ℕ) → next k ≡ (if k == m_key then column_after p (obj k) else obj k))

stored_at :
    (m_key : ℕ) (p : Push) (w : Bytes) (obj : Columns Bytes)
    → column_after p (obj m_key) ≡ some w
    → (k : ℕ) → store m_key w obj k ≡ (if k == m_key then column_after p (obj k) else obj k)
stored_at m_key p w obj e k = elim (Bool-cases (k == m_key)) [
  | inl t ↦ rw (t) (sym e ∙ ap (λ j. column_after p (obj j)) (sym ((==_iff k m_key).0 t)))
  | inr t ↦ rw (t) refl
]

left_at :
    (m_key v : ℕ) (obj : Columns Bytes)
    → obj m_key ≡ none
    → (k : ℕ) → obj k ≡ (if k == m_key then column_after (pushes_box v) (obj k) else obj k)
unfolding column_after
left_at m_key v obj e k = elim (Bool-cases (k == m_key)) [
  | inl t ↦ let n : obj k ≡ none = ap obj ((==_iff k m_key).0 t) ∙ e in rw (t, n) refl
  | inr t ↦ rw (t) refl
]

push_column-Pushed :
    (m_key : ℕ) (p : Push) (obj : Columns Bytes) → Pushed m_key p obj (push_column m_key p obj)
unfolding push_column push_back push_back_box get_binary column_after
push_column-Pushed m_key (pushes v) obj = elim (Option-cases (obj m_key)) [
  | inl n ↦ (
    store m_key (v ∷ []) obj,
    rw (push_column, push_back, get_binary, n) (copied_store m_key v [] obj),
    stored_at m_key (pushes v) (v ∷ []) obj (rw (n) refl),
  )
  | inr (b, n) ↦ (
    store m_key (b ++ v ∷ []) obj,
    rw (push_column, push_back, get_binary, n) (copied_store m_key v b obj),
    stored_at m_key (pushes v) (b ++ v ∷ []) obj (rw (n) refl),
  )
]
push_column-Pushed m_key (pushes_box v) obj = elim (Option-cases (obj m_key)) [
  | inl n ↦ (obj, rw (push_column, push_back_box, n) refl, left_at m_key v obj n)
  | inr (b, n) ↦ (
    store m_key (b ++ v ∷ []) obj,
    rw (push_column, push_back_box, n) (copied_store m_key v b obj),
    stored_at m_key (pushes_box v) (b ++ v ∷ []) obj (rw (n) refl),
  )
]

push_all-column_after_all :
    (ps : List (ℕ × Push)) (obj : Columns Bytes)
    → (next : Columns Bytes) × (push_all ps obj ≡ some next)
      × ((k : ℕ) → next k ≡ column_after_all k ps (obj k))
unfolding push_all column_after_all
push_all-column_after_all [] obj = (obj, refl, λ k. refl)
push_all-column_after_all ((m_key, p) ∷ ps) obj =
    let one = push_column-Pushed m_key p obj in
    let rest = push_all-column_after_all ps one.0 in
    (
      rest.0,
      rw (push_all, one.1) rest.1,
      λ k. rest.2 k ∙ ap (column_after_all k ps) (one.2 k) ∙ elim (Bool-cases (k == m_key)) [
        | inl t ↦ rw (column_after_all, t) refl
        | inr t ↦ rw (column_after_all, t) refl
      ],
    )

-- The bytes of a value, none for null.
unfoldable pub bytes_or_empty : Option Bytes → Bytes
bytes_or_empty none = []
bytes_or_empty (some b) = b

-- The byte of a box at an index; there is none of null.
unfoldable pub byte_at : ℕ → Option Bytes → Option ℕ
byte_at i none = none
byte_at i (some b) = get_elem? b i

read_box_lem : (k i : ℕ) (obj : Columns Bytes) → at_index_box k i obj ≡ byte_at (i % 2 ^ 8) (obj k)
unfolding at_index_box byte_at binary_element
read_box_lem k i obj = elim (Option-cases (obj k)) [
  | inl n ↦ rw (at_index_box, n) refl
  | inr (b, n) ↦ rw (at_index_box, n) refl
]

read_lem :
    (k i : ℕ) (obj : Columns Bytes)
    → at_index k i obj ≡ get_elem? (bytes_or_empty (obj k)) (i % 2 ^ 8)
unfolding at_index get_binary binary_element bytes_or_empty
read_lem k i obj = elim (Option-cases (obj k)) [
  | inl n ↦ rw (at_index, get_binary, n) refl
  | inr (b, n) ↦ rw (at_index, get_binary, n) refl
]

size_lem : (k : ℕ) (obj : Columns Bytes) → size k obj ≡ length (bytes_or_empty (obj k))
unfolding size get_binary bytes_or_empty
size_lem k obj = elim (Option-cases (obj k)) [
  | inl n ↦ rw (size, get_binary, n) refl
  | inr (b, n) ↦ rw (size, get_binary, n) refl
]

-- Any calls of push_back return, and change each column as if the calls on it had been made on an
-- optional vector in memory; a box of null ignores them, a managed value of null counts as empty. Afterwards `size` counts all bytes of a
-- column, but an index, of a box too, reads the byte at the index modulo 256, so that no byte from 256 on is read.
pub at_index-column_after_all :
    (ps : List (ℕ × Push)) (obj : Columns Bytes)
    → (next : Columns Bytes) × (push_all ps obj ≡ some next)
      × ((k : ℕ)
          → (next k ≡ column_after_all k ps (obj k))
            × (size k next ≡ length (bytes_or_empty (column_after_all k ps (obj k))))
            × ((i : ℕ)
                → at_index k i next
                  ≡ get_elem? (bytes_or_empty (column_after_all k ps (obj k))) (i % 2 ^ 8))
            × ((i : ℕ)
                → at_index_box k i next ≡ byte_at (i % 2 ^ 8) (column_after_all k ps (obj k))))
at_index-column_after_all ps obj =
    let all = push_all-column_after_all ps obj in
    (
      all.0,
      all.1,
      λ k. (
        all.2 k,
        size_lem k all.0 ∙ ap (λ o. length (bytes_or_empty o)) (all.2 k),
        λ i. read_lem k i all.0 ∙ ap (λ o. get_elem? (bytes_or_empty o) (i % 2 ^ 8)) (all.2 k),
        λ i. read_box_lem k i all.0 ∙ ap (byte_at (i % 2 ^ 8)) (all.2 k),
      ),
    )
