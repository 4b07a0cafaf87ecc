-- ===== src/Managed/Binary/Tests.antt =====
-- The theorem about binary data at a concrete object.
use realm_cpp.Prelude.{
  ℕ, ◌≡◌, ◌%◌, ◌^◌, refl, List, [], ◌∷◌, none, some, length, get_elem?, replicate, zero, suc, ◌++◌,
}
use realm_cpp.Managed.{Columns}
use realm_cpp.Prelude.Bytes.{Bytes}
use realm_cpp.Managed.Binary.{
  Push, pushes, pushes_box, push_all, size, at_index, at_index_box, get_binary, binary_element,
}
use realm_cpp.Managed.Binary.Reads.{
  column_after_all, bytes_or_empty, byte_at, at_index-column_after_all,
}

-- The column 0 has two bytes, all others are null.
abbrev object : Columns Bytes
object zero = some (7 ∷ 8 ∷ [])
object (suc k) = none

abbrev calls : List (ℕ × Push)
calls = (0, pushes 9) ∷ (1, pushes_box 5) ∷ (0, pushes_box 10) ∷ []

at_index-column_after_all_example :
    (next : Columns Bytes) × (push_all calls object ≡ some next)
    × ((k : ℕ)
        → (next k ≡ column_after_all k calls (object k))
          × (size k next ≡ length (bytes_or_empty (column_after_all k calls (object k))))
          × ((i : ℕ)
              → at_index k i next
                ≡ get_elem? (bytes_or_empty (column_after_all k calls (object k))) (i % 2 ^ 8))
          × ((i : ℕ)
              → at_index_box k i next ≡ byte_at (i % 2 ^ 8) (column_after_all k calls (object k))))
at_index-column_after_all_example = at_index-column_after_all calls object

-- 257 bytes, of which the last is 1: `value[256]` reads the first.
abbrev long_value : Columns Bytes
long_value k = some (replicate 256 0 ++ 1 ∷ [])

last_not_read : (size 0 long_value ≡ 257) × (at_index 0 256 long_value ≡ some 0)
unfolding size at_index get_binary binary_element
last_not_read = (refl, refl)
