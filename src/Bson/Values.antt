-- ===== src/Bson/Values.antt =====
-- src/cpprealm/bson.cpp, bsoncxx: the constructors, the conversions and get_type.
--
-- A `bsoncxx` is realm-core's value, which it never changes; so copies may share it. `none` is the
-- exception that realm-core throws for a value of another type.
pub mod Roundtrip
use realm_cpp.Prelude.{
  ℕ, ◌+◌, ◌-◌, ◌%◌, List, [], ◌∷◌, ◌++◌, Bool, Option, none, some, ltb, map, if◌then◌else◌,
}
use realm_cpp.Prelude.Bytes.{Bytes}
use realm_cpp.Prelude.Numbers.{ℤ, pos, negsuc}
use realm_cpp.Bson.Core.{Scalars, Bson, BsonArray, append_value}

pub data BsonType : Type 0 where
  b_null b_int32 b_int64 b_bool b_double b_string b_binary b_timestamp b_datetime : BsonType
  b_object_id b_decimal128 b_regular_expression b_max_key b_min_key b_document b_array : BsonType
  b_uuid : BsonType

-- What a `bsoncxx` is made from and converted to. A document is given by realm-core's document, a
-- regular expression by its pattern and options.
pub data Value (s : Scalars) : Type 0 where
  nullopt least_key greatest_key : Value s
  int32 int64 : ℤ → Value s
  boolean : Bool → Value s
  double : s.Double → Value s
  string : Bytes → Value s
  bytes : Bytes → Value s
  timestamp : ℕ → ℕ → Value s
  date : s.Date → Value s
  object_id : s.ObjectId → Value s
  decimal128 : s.Decimal → Value s
  expression : Bytes → ℕ → Value s
  document : s.CoreDocument → Value s
  vector : BsonArray s → Value s
  uuid : s.Uuid → Value s

-- The conversions between `uint8_t` and `char` that the constructors of std::vector make.
unfoldable pub to_char : ℕ → ℤ
to_char n = if ltb n 128 then pos n else negsuc (255 - n)

unfoldable pub to_uint8 : ℤ → ℕ
to_uint8 (pos n) = n % 256
to_uint8 (negsuc n) = 255 - n % 256

module _ {s : Scalars} where
  -- The loops over `std::vector<bsoncxx>` and over BsonArray, from what has been pushed on.
  pub pushed : BsonArray s → BsonArray s → BsonArray s
  pushed ret BsonArray.empty_array = ret
  pushed ret (BsonArray.element b rest) = pushed (append_value ret b) rest

  -- The constructor that the type of the value selects.
  pub construct_bson : Value s → Bson s
  unfolding to_char pushed
  construct_bson nullopt = Bson.null
  construct_bson least_key = Bson.min_key
  construct_bson greatest_key = Bson.max_key
  construct_bson (int32 n) = Bson.int32 n
  construct_bson (int64 n) = Bson.int64 n
  construct_bson (boolean b) = Bson.boolean b
  construct_bson (double d) = Bson.double d
  construct_bson (string t) = Bson.text t
  construct_bson (bytes bs) = Bson.binary (map to_char bs)
  construct_bson (timestamp seconds increment) = Bson.mongo_timestamp seconds increment
  construct_bson (date d) = Bson.datetime (s.to_datetime d)
  construct_bson (object_id o) = Bson.object_id (s.to_object_id o)
  construct_bson (decimal128 d) = Bson.decimal (s.to_decimal d)
  construct_bson (expression pattern options) = Bson.regular_expression pattern options
  construct_bson (document d) = Bson.document d
  construct_bson (vector v) = Bson.array (pushed BsonArray.empty_array v)
  construct_bson (uuid u) = Bson.uuid (s.to_uuid u)

  pub get_type : Bson s → BsonType
  get_type Bson.null = b_null
  get_type (Bson.int32 n) = b_int32
  get_type (Bson.int64 n) = b_int64
  get_type (Bson.boolean b) = b_bool
  get_type (Bson.double d) = b_double
  get_type (Bson.text t) = b_string
  get_type (Bson.binary cs) = b_binary
  get_type (Bson.mongo_timestamp seconds increment) = b_timestamp
  get_type (Bson.datetime d) = b_datetime
  get_type (Bson.object_id o) = b_object_id
  get_type (Bson.decimal d) = b_decimal128
  get_type Bson.max_key = b_max_key
  get_type Bson.min_key = b_min_key
  get_type (Bson.document d) = b_document
  get_type (Bson.array a) = b_array
  get_type (Bson.uuid u) = b_uuid
  get_type (Bson.regular_expression pattern options) = b_regular_expression

  -- The conversion operator to the type that is named.
  pub convert : BsonType → Bson s → Option (Value s)
  unfolding to_uint8 pushed
  convert b_null Bson.null = some nullopt
  convert b_int32 (Bson.int32 n) = some (int32 n)
  convert b_int64 (Bson.int64 n) = some (int64 n)
  convert b_bool (Bson.boolean b) = some (boolean b)
  convert b_double (Bson.double d) = some (double d)
  convert b_min_key Bson.min_key = some least_key
  convert b_max_key Bson.max_key = some greatest_key
  convert b_timestamp (Bson.mongo_timestamp seconds increment) = some (timestamp seconds increment)
  convert b_datetime (Bson.datetime d) = some (date (s.from_datetime d))
  convert b_decimal128 (Bson.decimal d) = some (decimal128 (s.from_decimal d))
  convert b_object_id (Bson.object_id o) = some (object_id (s.from_object_id o))
  convert b_uuid (Bson.uuid u) = some (uuid (s.from_uuid u))
  convert b_regular_expression (Bson.regular_expression pattern options) =
      some (expression pattern options)
  convert b_binary (Bson.binary data_of) = some (bytes (map to_uint8 data_of))
  convert b_string (Bson.text t) = some (string t)
  convert b_document (Bson.document d) = some (document d)
  convert b_array (Bson.array a) = some (vector (pushed BsonArray.empty_array a))
  convert _ _ = none
