-- ===== src/Bson/Core.antt =====
-- realm-core's BSON values, as src/cpprealm/bson.cpp uses them.
--
-- `Scalars` has the types that the SDK passes on: realm-core's own, prefixed by Core, and the SDK's
-- where it converts between the two.
use realm_cpp.Prelude.{ℕ, ◌≡◌, List, Bool}
use realm_cpp.Prelude.Bytes.{Bytes}
use realm_cpp.Prelude.Numbers.{ℤ}

pub record Scalars : Type 1 where
  pub Double : Type 0
  pub CoreDocument : Type 0
  pub Date : Type 0
  pub CoreDatetime : Type 0
  pub Decimal : Type 0
  pub CoreDecimal : Type 0
  pub ObjectId : Type 0
  pub CoreObjectId : Type 0
  pub Uuid : Type 0
  pub CoreUuid : Type 0
  pub to_datetime : Date → CoreDatetime
  pub from_datetime : CoreDatetime → Date
  pub to_decimal : Decimal → CoreDecimal
  pub from_decimal : CoreDecimal → Decimal
  pub to_object_id : ObjectId → CoreObjectId
  pub from_object_id : CoreObjectId → ObjectId
  pub to_uuid : Uuid → CoreUuid
  pub from_uuid : CoreUuid → Uuid

-- What the SDK converts comes back.
pub record ScalarLaws (s : Scalars) : Type 0 where
  pub datetime : (d : s.Date) → s.from_datetime (s.to_datetime d) ≡ d
  pub decimal : (d : s.Decimal) → s.from_decimal (s.to_decimal d) ≡ d
  pub object_id : (o : s.ObjectId) → s.from_object_id (s.to_object_id o) ≡ o
  pub uuid : (u : s.Uuid) → s.from_uuid (s.to_uuid u) ≡ u

-- Binary data are of `char`, which is signed.
mutual
  pub data Bson (s : Scalars) : Type 0 where
    null min_key max_key : Bson s
    int32 int64 : ℤ → Bson s
    boolean : Bool → Bson s
    double : s.Double → Bson s
    text : Bytes → Bson s
    binary : List ℤ → Bson s
    mongo_timestamp : ℕ → ℕ → Bson s
    datetime : s.CoreDatetime → Bson s
    object_id : s.CoreObjectId → Bson s
    decimal : s.CoreDecimal → Bson s
    regular_expression : Bytes → ℕ → Bson s
    document : s.CoreDocument → Bson s
    array : BsonArray s → Bson s
    uuid : s.CoreUuid → Bson s

  pub data BsonArray (s : Scalars) : Type 0 where
    empty_array : BsonArray s
    element : Bson s → BsonArray s → BsonArray s

-- `push_back`
unfoldable pub append_value : {s : Scalars} → BsonArray s → Bson s → BsonArray s
append_value empty_array b = element b empty_array
append_value (element a rest) b = element a (append_value rest b)
