-- ===== src/Bson/Tests.antt =====
-- The theorems about BSON values and iterators at concrete ones.
use realm_cpp.Prelude.{ℕ, suc, ◌-◌, ◌≡◌, refl, [], ◌∷◌, some, arith}
use realm_cpp.Bson.Core.{Scalars, ScalarLaws}
use realm_cpp.Bson.Values.{Value, bytes, construct_bson, get_type, convert}
use realm_cpp.Bson.Values.Roundtrip.{IsOctets, convert-construct_bson}
use realm_cpp.Bson.Iterators.{CoreIterator}

abbrev positions : CoreIterator ℕ
positions = record {
  next = λ i. suc i;
  post_next = λ i. (i, suc i);
  post_previous = λ i. (i, i - 1);
}

abbrev scalars : Scalars
scalars = record {
  Double = ℕ;
  CoreDocument = ℕ;
  Date = ℕ;
  CoreDatetime = ℕ;
  Decimal = ℕ;
  CoreDecimal = ℕ;
  ObjectId = ℕ;
  CoreObjectId = ℕ;
  Uuid = ℕ;
  CoreUuid = ℕ;
  to_datetime = λ n. n;
  from_datetime = λ n. n;
  to_decimal = λ n. n;
  from_decimal = λ n. n;
  to_object_id = λ n. n;
  from_object_id = λ n. n;
  to_uuid = λ n. n;
  from_uuid = λ n. n;
}

abbrev scalars-Laws : ScalarLaws scalars
scalars-Laws = record {
  datetime = λ n. refl;
  decimal = λ n. refl;
  object_id = λ n. refl;
  uuid = λ n. refl;
}

abbrev octets : Value scalars
octets = bytes (200 ∷ 3 ∷ [])

octets-IsOctets : IsOctets octets
unfolding IsOctets
octets-IsOctets = (omega arith, (omega arith, tt))

convert-construct_bson_example :
    convert (get_type (construct_bson octets)) (construct_bson octets) ≡ some octets
convert-construct_bson_example = convert-construct_bson scalars-Laws octets octets-IsOctets
