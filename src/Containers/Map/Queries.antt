-- ===== src/Containers/Map/Queries.antt =====
-- include/cpprealm/managed_dictionary.hpp: the tests of boxes and `contains_key`, in a query and on an
-- object.
--
-- The shared `rbool` is there in a query only. The comparison of two values is realm-core's; a key
-- that the map has not makes `get` throw, `none`.
use realm_cpp.Prelude.{
  ◌≡◌, refl, sym, ap, ◌∙◌, inl, inr, Option-cases, Bool, not, Option, none, some,
}
use realm_cpp.Prelude.Bytes.{Bytes}
use realm_cpp.Query.{
  Comparison, Core, Root, Rbool, DictionaryTest, boolean, query, dictionary_test, copy, equal,
  not_equal, greater, less, greater_equal, less_equal, value_compares, has_key,
}
use realm_cpp.Query.Laws.{Laws, root}
use mathlib.Core.Option

module _ (core : Core) (mixed_test : Comparison → core.Value → core.Value → Bool) where
  open core use {Column, Value}

  -- An operator on the value read: `!=` is the negation of `==`.
  unfoldable pub box_test : Comparison → Value → Value → Bool
  box_test not_equal v rhs = not (mixed_test equal v rhs)
  box_test equal v rhs = mixed_test equal v rhs
  box_test greater v rhs = mixed_test greater v rhs
  box_test less v rhs = mixed_test less v rhs
  box_test greater_equal v rhs = mixed_test greater_equal v rhs
  box_test less_equal v rhs = mixed_test less_equal v rhs

  -- The operators ==, !=, >, <, >= and <= of a box, on the value under its key: the result, and the
  -- shared `rbool` afterwards.
  pub compare_box :
      Comparison
      → Column
      → Bytes
      → Option Value
      → Value
      → Option (Root core)
      → Option (Rbool core) × Option (Root core)
  compare_box op m_col_key m_key stored rhs (some q) =
      let r = dictionary_test core (value_compares op) m_col_key m_key (some rhs) q in
      (some (copy core r), some r)
  compare_box op m_col_key m_key none rhs none = (none, none)
  compare_box op m_col_key m_key (some v) rhs none = (some (boolean (box_test op v rhs)), none)

  -- `contains_key`, where the map has the key or not.
  pub contains_key_in : Column → Bytes → Bool → Option (Root core) → Rbool core × Option (Root core)
  contains_key_in m_key key stored (some q) =
      let r = dictionary_test core has_key m_key key none q in (copy core r, some r)
  contains_key_in m_key key stored none = (boolean stored, none)

  module _ (laws : Laws core) where
    open core use {Query, Table, get_table, from_table, dictionary}
    open laws use {Row, matches, looked_up, matches_dictionary}

    -- `entry` gives the value that a row's map has under the key; realm-core's query looks it up.
    abbrev pub LooksUp : Comparison → Column → Bytes → (Row → Option Value) → Type 0
    LooksUp op c key entry =
        (rhs v : Value) (o : Row)
        → entry o ≡ some v
        → looked_up (value_compares op) c key (some rhs) o ≡ box_test op v rhs

    query_of :
        (t : DictionaryTest) (c : Column) (key : Bytes) (rhs : Option Value) (q : Query) (o : Row)
        → matches (dictionary t c key rhs (from_table (get_table q))) o ≡ looked_up t c key rhs o
    query_of t c key rhs q o = matches_dictionary t c key rhs (from_table (get_table q)) o

    -- The query that an operator of a box makes selects, of the rows whose map has the key, exactly
    -- those on whose object the operator is true, whichever query the shared object holds; on an object
    -- without the key the operator throws.
    pub compare_box-Agrees :
        (op : Comparison) (c : Column) (key : Bytes) (entry : Row → Option Value) (rhs : Value)
        (t : Table) (q : Query)
        → LooksUp op c key entry
        → (r : Query) × ((stored : Option Value)
            → (compare_box op c key stored rhs (some (root core laws q t))).0 ≡ some (query r))
          × ((o : Row)
              → (compare_box op c key (entry o) rhs none).0
                ≡ Option.map (λ v. boolean (matches r o)) (entry o))
    unfolding compare_box dictionary_test copy
    compare_box-Agrees op c key entry rhs t q h = (
      dictionary (value_compares op) c key (some rhs) (from_table (get_table q)),
      (λ stored. refl),
      λ o. elim (Option-cases (entry o)) [
        | inl e ↦ rw (compare_box, e) refl
        | inr (v, e) ↦
            rw (compare_box, e)
              (ap (λ b. some (boolean b))
                (sym (query_of (value_compares op) c key (some rhs) q o ∙ h rhs v o e)))
      ],
    )

    -- The query of `contains_key` selects exactly the rows on whose object it is true.
    pub contains_key_in-Agrees :
        (c : Column) (key : Bytes) (present : Row → Bool) (t : Table) (q : Query)
        → ((o : Row) → looked_up has_key c key none o ≡ present o)
        → (r : Query) × ((stored : Bool)
            → (contains_key_in c key stored (some (root core laws q t))).0 ≡ query r)
          × ((o : Row) → (contains_key_in c key (present o) none).0 ≡ boolean (matches r o))
    unfolding contains_key_in dictionary_test copy
    contains_key_in-Agrees c key present t q h = (
      dictionary has_key c key none (from_table (get_table q)),
      (λ stored. refl),
      λ o. ap boolean (sym (query_of has_key c key none q o ∙ h o)),
    )
