-- ===== src/Net/Ipv4.antt =====
-- `is_valid_ipv4` of src/cpprealm/internal/networking/network_transport.cpp.
--
-- `std::getline` on a string stream fails at the end of the stream, and otherwise takes the bytes
-- up to the delimiter, which it drops, or up to the end. The loop over it takes fuel; the length
-- of the text is enough, since every round takes a byte.
pub mod Split
pub mod Laws
mod Tests
use realm_cpp.Prelude.{
  ℕ, zero, suc, ◌+◌, ◌-◌, ◌*◌, List, [], ◌∷◌, Bool, true, false, not, ◌||◌, ◌&&◌, Option, none,
  some, length, ltb, leb, ◌==◌, if◌then◌else◌,
}
use realm_cpp.Prelude.Bytes.{Bytes}
use realm_cpp.Prelude.Numbers.{isdigit, leading_value}

-- The bytes up to the delimiter, and what is left in the stream.
unfoldable pub take_segment : ℕ → Bytes → Bytes × Bytes
take_segment delim [] = ([], [])
take_segment delim (c ∷ cs) =
    let (segment, rest) = take_segment delim cs in
    if c == delim then ([], cs) else (c ∷ segment, rest)

unfoldable pub getline : ℕ → Bytes → Option (Bytes × Bytes)
getline delim [] = none
getline delim (c ∷ cs) = some (take_segment delim (c ∷ cs))

-- while (std::getline(ss, segment, '.')) segments.push_back(segment);
unfoldable pub read_segments : ℕ → ℕ → Bytes → List Bytes
read_segments zero delim ss = []
read_segments (suc fuel) delim ss = elim (getline delim ss) [
  | none ↦ []
  | some (segment, rest) ↦ segment ∷ read_segments fuel delim rest
]

-- for (char c : seg) if (!isdigit(c)) return false;
unfoldable pub all_digits : Bytes → Bool
unfolding isdigit
all_digits [] = true
all_digits (c ∷ seg) = if not (isdigit c) then false else all_digits seg

-- The body of the loop over the segments. `std::stoi` does not throw on one to three digits: it
-- gives their value, which is not negative.
unfoldable pub valid_segment : Bytes → Bool
valid_segment seg =
    if (length seg == 0) || ltb 3 (length seg)
    then false
    else if not (all_digits seg)
    then false
    else if ltb 255 (leading_value 0 seg)
    then false
    else true

unfoldable pub valid_segments : List Bytes → Bool
valid_segments [] = true
valid_segments (seg ∷ segments) = if not (valid_segment seg) then false else valid_segments segments

unfoldable pub is_valid_ipv4 : Bytes → Bool
is_valid_ipv4 ip =
    let segments = read_segments (length ip) b'.' ip in
    if not (length segments == 4) then false else valid_segments segments
