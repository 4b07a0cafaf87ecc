-- ===== src/Managed/Variant/Alternatives.antt =====
-- include/cpprealm/managed_mixed.hpp: which alternative a property holds.
use realm_cpp.Prelude.{ℕ, ◌==◌, ◌≡◌, refl, false, if◌then◌else◌}
use realm_cpp.Prelude.Attempts.{completed, threw}
use realm_cpp.Containers.Objects.{Table, made_object}
use realm_cpp.Managed.Variant.{
  Alternative, of, pointer, Persistable, int64, int32, enumeration, boolean, string, bytes,
  time_point, float, double, decimal, object_id, uuid, monostate, StoredMixed, data_type,
  stored_type, tested_type, is_same, get_stored_type, assign, links_class, holds_alternative,
  get_stored_link, set_link_object,
}

-- What a type of values becomes: numbers and enumerations are stored as 64-bit integers or doubles.
unfoldable pub kept_as : Persistable → Persistable
kept_as int32 = int64
kept_as enumeration = int64
kept_as float = double
kept_as int64 = int64
kept_as boolean = boolean
kept_as string = string
kept_as bytes = bytes
kept_as time_point = time_point
kept_as double = double
kept_as decimal = decimal
kept_as object_id = object_id
kept_as uuid = uuid
kept_as monostate = monostate

module _ {ℓ κ} (V : Type ℓ) (Key : Type κ) (table_key : ℕ → ℕ) where
  holds_alternative-assign :
      (a : Alternative) (b : Persistable) (v : V)
      → holds_alternative table_key a (assign {Key = Key} b v) ≡ is_same a (of (kept_as b))
  unfolding holds_alternative assign kept_as get_stored_type data_type stored_type tested_type
  holds_alternative-assign a int64 v = refl
  holds_alternative-assign a int32 v = refl
  holds_alternative-assign a enumeration v = refl
  holds_alternative-assign a boolean v = refl
  holds_alternative-assign a string v = refl
  holds_alternative-assign a bytes v = refl
  holds_alternative-assign a time_point v = refl
  holds_alternative-assign a float v = refl
  holds_alternative-assign a double v = refl
  holds_alternative-assign a decimal v = refl
  holds_alternative-assign a object_id v = refl
  holds_alternative-assign a uuid v = refl
  holds_alternative-assign a monostate v = refl

module _ {ℓ κ ι μ} {State : Type ℓ} {V : Type κ} {T : Type ι} {Key : Type μ} (table_key : ℕ → ℕ)
    (table : Table State T Key) where
  -- After a value is assigned, the property holds exactly the alternative of the type that it is
  -- stored as: its own, but `int64_t` for an `int` or an enumeration, and `double` for a float, whose
  -- own types it does not hold. After set_link with an object in memory, where setting the
  -- properties of the new object does not throw, it holds exactly the
  -- pointers to a class with the same table, and no value; get_stored_link gives the new object
  -- for these classes, and throws for the others.
  pub assign-set_link_object :
      (c : ℕ) (o : T) (st : State)
      → let linked : StoredMixed V Key = (set_link_object table_key table c o st).1 in
        ((a : Alternative) (b : Persistable) (v : V)
          → holds_alternative table_key a (assign {Key = Key} b v) ≡ is_same a (of (kept_as b)))
        × ((a : Persistable) → holds_alternative table_key (of a) linked ≡ false)
        × ((d : ℕ) → holds_alternative table_key (pointer d) linked ≡ (table_key d == table_key c))
        × ((d : ℕ)
            → get_stored_link table_key d linked ≡ (
                if table_key d == table_key c then completed (made_object table o st).1 else threw))
  unfolding set_link_object holds_alternative get_stored_type stored_type tested_type
      get_stored_link links_class
  assign-set_link_object c o st = (
    (λ a b v. holds_alternative-assign V Key table_key a b v),
    (λ a. refl),
    (λ d. refl),
    λ d. refl,
  )
