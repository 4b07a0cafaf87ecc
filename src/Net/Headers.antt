-- ===== src/Net/Headers.antt =====
-- HTTP header maps, as src/cpprealm/internal/networking/network_transport.cpp uses them: a
-- `std::map` whose comparison, realm-core's, is outside the repository. It is a parameter: a test
-- whether two names are the same header.
use realm_cpp.Prelude.{
  ◌≡◌, ◌∙◌, refl, subst, sym, List, [], ◌∷◌, Bool, true, Option, none, some, arith, if◌then◌else◌,
}
use realm_cpp.Prelude.Bytes.{Bytes, bytes_eq, bytes_eq_iff}

-- Neither name is before the other; the comparison is a strict weak order.
pub record KeyTest : Type 0 where
  pub same : Bytes → Bytes → Bool
  pub same_refl : (a : Bytes) → same a a ≡ true
  pub same_trans : (a b c : Bytes) → same a b ≡ true → same a c ≡ same b c

pub bytes_eq_trans : (a b c : Bytes) → bytes_eq a b ≡ true → bytes_eq a c ≡ bytes_eq b c
bytes_eq_trans a b c e =
    subst (λ (x : Bytes). bytes_eq a c ≡ bytes_eq x c) ((bytes_eq_iff a b).0 e) refl

pub bytes_eq_refl : (a : Bytes) → bytes_eq a a ≡ true
bytes_eq_refl a = (bytes_eq_iff a a).1 refl

-- Names that are told apart by their bytes.
abbrev pub exact : KeyTest
exact = record { same = bytes_eq; same_refl = bytes_eq_refl; same_trans = bytes_eq_trans }

abbrev pub Headers : Type 0
Headers = List (Bytes × Bytes)

abbrev pub or_else : Option Bytes → Bytes → Option Bytes
or_else none v = some v
or_else (some w) v = some w

abbrev pub first_of_two : Option Bytes → Option Bytes → Option Bytes
first_of_two (some v) o = some v
first_of_two none o = o

module _ (keys : KeyTest) where
  open keys use {same, same_refl, same_trans}

  unfoldable pub find : Bytes → Headers → Option Bytes
  find k [] = none
  find k ((j, v) ∷ m) = if same j k then some v else find k m

  -- headers[k] = v; a header that is there keeps the spelling of its name.
  pub assign : Bytes → Bytes → Headers → Headers
  assign k v [] = (k, v) ∷ []
  assign k v ((j, w) ∷ m) = if same j k then (j, v) ∷ m else (j, w) ∷ assign k v m

  -- headers.emplace(k, v), which leaves a header that is there as it is.
  pub emplace : Bytes → Bytes → Headers → Headers
  emplace k v [] = (k, v) ∷ []
  emplace k v ((j, w) ∷ m) = if same j k then (j, w) ∷ m else (j, w) ∷ emplace k v m

  -- for (auto& [k, v] : pairs) headers[k] = v;
  pub assign_all : Headers → Headers → Headers
  assign_all [] m = m
  assign_all ((k, v) ∷ pairs) m = assign_all pairs (assign k v m)

  -- for (auto& header : pairs) headers.emplace(header);
  pub emplace_all : Headers → Headers → Headers
  emplace_all [] m = m
  emplace_all ((k, v) ∷ pairs) m = emplace_all pairs (emplace k v m)

  same_sym : (a b : Bytes) → same a b ≡ true → same b a ≡ true
  same_sym a b e = sym (same_trans a b a e) ∙ same_refl a

  pub find-assign :
      (k j v : Bytes) (m : Headers)
      → find j (assign k v m) ≡ (if same k j then some v else find j m)
  unfolding find assign
  find-assign k j v [] = refl
  find-assign k j v ((i, w) ∷ m) =
      ground (arith, find-assign k j v m, same_trans i k j, same_trans i j k, same_sym k j)

  pub find-emplace :
      (k j v : Bytes) (m : Headers)
      → find j (emplace k v m) ≡ (if same k j then or_else (find j m) v else find j m)
  unfolding find emplace
  find-emplace k j v [] = refl
  find-emplace k j v ((i, w) ∷ m) =
      ground (arith, find-emplace k j v m, same_trans i k j, same_sym i k, same_trans k i j)

  -- After `emplace` of a list of headers each name has the value that it had, or else the first
  -- one that the list gives it.
  pub find-emplace_all :
      (j : Bytes) (pairs m : Headers)
      → find j (emplace_all pairs m) ≡ first_of_two (find j m) (find j pairs)
  unfolding emplace_all find
  find-emplace_all j [] m = ground (arith, find j m)
  find-emplace_all j ((k, w) ∷ pairs) m =
      ground (arith, find-emplace_all j pairs (emplace k w m), find-emplace k j w m)
