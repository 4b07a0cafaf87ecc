-- ===== src/Bson/Values/Roundtrip.antt =====
-- src/cpprealm/bson.cpp, bsoncxx: a value that is put into a `bsoncxx` and taken out.
use realm_cpp.Prelude.{ℕ, ◌<◌, ◌≡◌, refl, sym, ap, ◌∙◌, [], ◌∷◌, some, map, All, arith}
use realm_cpp.Prelude.Bytes.{Bytes}
use realm_cpp.Bson.Core.{Scalars, ScalarLaws, Bson, BsonArray, append_value}
use realm_cpp.Bson.Values.{
  Value, nullopt, least_key, greatest_key, int32, int64, boolean, double, string, bytes, timestamp,
  date, object_id, decimal128, expression, document, vector, uuid, to_char, to_uint8, pushed,
  construct_bson, get_type, convert,
}
use mathlib.Core.Path.{ap₂}

to_uint8-to_char : (n : ℕ) → n < 256 → to_uint8 (to_char n) ≡ n
unfolding to_uint8 to_char
to_uint8-to_char n h = ground arith

map-to_char : (bs : Bytes) → All (λ n. n < 256) bs → map to_uint8 (map to_char bs) ≡ bs
map-to_char [] h = refl
map-to_char (n ∷ bs) h = ap₂ (λ m ms. m ∷ ms) (to_uint8-to_char n h.0) (map-to_char bs h.1)

module _ {s : Scalars} where
  -- An array followed by another.
  unfoldable followed_by : BsonArray s → BsonArray s → BsonArray s
  followed_by BsonArray.empty_array b = b
  followed_by (BsonArray.element x a) b = BsonArray.element x (followed_by a b)

  followed_by-append_value :
      (a rest : BsonArray s) (x : Bson s)
      → followed_by (append_value a x) rest ≡ followed_by a (BsonArray.element x rest)
  unfolding followed_by append_value
  followed_by-append_value BsonArray.empty_array rest x = refl
  followed_by-append_value (BsonArray.element y a) rest x =
      ap (BsonArray.element y) (followed_by-append_value a rest x)

  followed_by_empty : (a : BsonArray s) → followed_by a BsonArray.empty_array ≡ a
  unfolding followed_by
  followed_by_empty BsonArray.empty_array = refl
  followed_by_empty (BsonArray.element x a) = ap (BsonArray.element x) (followed_by_empty a)

  pushed-followed_by : (ret a : BsonArray s) → pushed ret a ≡ followed_by ret a
  unfolding pushed followed_by
  pushed-followed_by ret BsonArray.empty_array = sym (followed_by_empty ret)
  pushed-followed_by ret (BsonArray.element x a) =
      pushed-followed_by (append_value ret x) a ∙ followed_by-append_value ret a x

  pushed_all : (a : BsonArray s) → pushed BsonArray.empty_array a ≡ a
  unfolding followed_by
  pushed_all a = pushed-followed_by BsonArray.empty_array a

  -- The bytes of binary data are bytes.
  unfoldable pub IsOctets : Value s → Type 0
  IsOctets (bytes bs) = All (λ n. n < 256) bs
  IsOctets _ = Unit

  -- A value that is put into a `bsoncxx` comes back, unchanged, by the conversion to the type that
  -- get_type reports: arrays in their order, and bytes of 128 and above, which are negative as `char`.
  -- The conversions of dates, decimals and identifiers to realm-core and back must give them back.
  pub convert-construct_bson :
      (laws : ScalarLaws s) (v : Value s)
      → IsOctets v
      → convert (get_type (construct_bson v)) (construct_bson v) ≡ some v
  unfolding convert get_type construct_bson IsOctets
  convert-construct_bson laws nullopt h = refl
  convert-construct_bson laws least_key h = refl
  convert-construct_bson laws greatest_key h = refl
  convert-construct_bson laws (int32 n) h = refl
  convert-construct_bson laws (int64 n) h = refl
  convert-construct_bson laws (boolean b) h = refl
  convert-construct_bson laws (double d) h = refl
  convert-construct_bson laws (string t) h = refl
  convert-construct_bson laws (bytes bs) h = ap (λ b. some (bytes b)) (map-to_char bs h)
  convert-construct_bson laws (timestamp a b) h = refl
  convert-construct_bson laws (date d) h = ap (λ d. some (date d)) (laws.datetime d)
  convert-construct_bson laws (object_id o) h = ap (λ o. some (object_id o)) (laws.object_id o)
  convert-construct_bson laws (decimal128 d) h = ap (λ d. some (decimal128 d)) (laws.decimal d)
  convert-construct_bson laws (expression p o) h = refl
  convert-construct_bson laws (document d) h = refl
  convert-construct_bson laws (vector a) h =
      ap (λ a. some (vector a)) (ap (pushed BsonArray.empty_array) (pushed_all a) ∙ pushed_all a)
  convert-construct_bson laws (uuid u) h = ap (λ u. some (uuid u)) (laws.uuid u)
