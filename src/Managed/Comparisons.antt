-- ===== src/Managed/Comparisons.antt =====
-- include/cpprealm/managed_numeric.hpp: comparisons in a query and on an object.
use realm_cpp.Prelude.{◌≡◌, ◌≢◌, refl, sym, ap, Option, none, some}
use realm_cpp.Query.{
  Comparison, Core, Root, Rbool, boolean, query, comparison, copy, equal, not_equal, greater, less,
  greater_equal, less_equal,
}
use realm_cpp.Query.Laws.{Laws, root}
use realm_cpp.Managed.{Arithmetic, compared, enum_test, compare_numeric, compare_enum}

enum_test_same : (op : Comparison) → op ≢ less → enum_test op ≡ op
unfolding enum_test
enum_test_same equal n = refl
enum_test_same not_equal n = refl
enum_test_same greater n = refl
enum_test_same less n = absurd (n refl)
enum_test_same greater_equal n = refl
enum_test_same less_equal n = refl

module _ (core : Core) (laws : Laws core) (a : Arithmetic core.Value) where
  open core use {Query, Table, Column, Value, get_table, from_table}
  open laws use {Row, matches, meets, matches_compare, matches_from_table}

  -- `value` gives a row's number in the column; realm-core compares as the arithmetic does.
  abbrev pub Reads : Column → (Row → Value) → Type 0
  Reads key value =
      (op : Comparison) (rhs : Value) (o : Row)
      → meets op key (some rhs) o ≡ compared a op (value o) rhs

  -- What an operator gives in a query, and on an object that holds the row's number.
  abbrev pub Agrees :
      (Value → Option (Root core) → Rbool core × Option (Root core))
      → (Row → Value)
      → (Query → Root core)
      → Type 0
  Agrees f value start =
      (q : Query)
      → (r : Query) × ((v : Value) → (f v (some (start q))).0 ≡ query r)
        × ((o : Row) → (f (value o) none).0 ≡ boolean (matches r o))

  compare_query :
      (op : Comparison) (key : Column) (value : Row → Value) (rhs : Value) (q : Query) (o : Row)
      → Reads key value
      → matches (core.compare op key (some rhs) (from_table (get_table q))) o
        ≡ compared a op (value o) rhs
  compare_query op key value rhs q o h =
      rw
        (
          matches_compare op key (some rhs) (from_table (get_table q)) o,
          matches_from_table (get_table q) o,
        )
        (h op rhs o)

  -- For numbers the query of each of the six operators selects exactly the rows on whose object the
  -- operator is true, whichever query the shared object holds.
  pub compare_numeric-Agrees :
      (op : Comparison) (key : Column) (value : Row → Value) (rhs : Value) (t : Table)
      → Reads key value
      → Agrees (λ v s. compare_numeric core a op key v rhs s) value (λ q. root core laws q t)
  unfolding compare_numeric comparison copy
  compare_numeric-Agrees op key value rhs t h q =
      (_, (λ v. refl), λ o. ap boolean (sym (compare_query op key value rhs q o h)))

  -- For enumerations that holds of every operator but `<`.
  pub compare_enum-Agrees :
      (op : Comparison) (key : Column) (value : Row → Value) (rhs : Value) (t : Table)
      → Reads key value
      → op ≢ less
      → Agrees (λ v s. compare_enum core a op key v rhs s) value (λ q. root core laws q t)
  unfolding compare_enum comparison copy
  compare_enum-Agrees op key value rhs t h n q = (
    core.compare op key (some rhs) (from_table (get_table q)),
    (λ v.
        ap (λ (t : Comparison). query (core.compare t key (some rhs) (from_table (get_table q))))
          (enum_test_same op n)),
    λ o. ap boolean (sym (compare_query op key value rhs q o h)),
  )

  -- The query of `<` of an enumeration selects the rows on whose object `>` is true.
  pub compare_enum_less :
      (key : Column) (value : Row → Value) (rhs : Value) (q : Query) (t : Table)
      → Reads key value
      → (r : Query) × ((v : Value)
          → (compare_enum core a less key v rhs (some (root core laws q t))).0 ≡ query r)
        × ((o : Row)
            → (compare_enum core a greater key (value o) rhs none).0 ≡ boolean (matches r o))
  unfolding compare_enum comparison copy enum_test
  compare_enum_less key value rhs q t h =
      (_, (λ v. refl), λ o. ap boolean (sym (compare_query greater key value rhs q o h)))
