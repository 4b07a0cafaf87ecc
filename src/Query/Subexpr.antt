-- ===== src/Query/Subexpr.antt =====
-- src/cpprealm/internal/bridge/query.cpp: the comparisons of subexpr, which tests behind a link chain
-- make, and the interface to realm-core's queries.
use realm_cpp.Prelude.{Bool, false, Option, none, some, if◌then◌else◌}
use realm_cpp.Prelude.Bytes.{Bytes}

-- `equal`, `not_equal` and so on, the macro's parameter `comparison`.
pub data Comparison : Type 0 where
  equal not_equal greater less greater_equal less_equal : Comparison

-- The tests of `dictionary_has_value_for_key_...`, `dictionary_contains_string_for_key` and
-- `dictionary_has_key`.
pub data DictionaryTest : Type 0 where
  value_compares : Comparison → DictionaryTest
  contains_string has_key : DictionaryTest

-- realm-core's Query, and the link chains and columns that give one; `none` is null. `column_compare` and
-- `column_links` are the operators of Columns<T>, the second `==` or `!=` by its Boolean. `get_bool`
-- is that of a Mixed, which realm-core allows only for a Boolean. `text_as_mixed` is `==` on the null
-- pointer that the cast of a column of texts to one of Mixed gives, which is undefined.
pub record Core : Type 1 where
  pub Query : Type 0
  pub Table : Type 0
  pub Column : Type 0
  pub Value : Type 0
  pub Object : Type 0
  pub LinkChain : Type 0
  pub from_table : Table → Query
  pub get_table : Query → Table
  pub get_link : Table → Column → LinkChain
  pub link : LinkChain → Column → LinkChain
  pub compare : Comparison → Column → Option Value → Query → Query
  pub contains : Column → Value → Bool → Query → Query
  pub links_to : Column → Option Object → Query → Query
  pub not_links_to : Column → Option Object → Query → Query
  pub column_compare : Comparison → LinkChain → Column → Option Value → Query
  pub chain_contains : LinkChain → Column → Value → Bool → Query
  pub column_links : Bool → LinkChain → Column → Option Object → Query
  pub get_bool : Value → Bool
  pub text_as_mixed : LinkChain → Column → Value → Query
  pub key_target : Table → Column → Bytes → Table
  pub compare_on : Comparison → Table → Column → Option Value → Query
  pub dictionary : DictionaryTest → Column → Bytes → Option Value → Query → Query
  pub and_query : Query → Query → Query
  pub or_query : Query → Query → Query
  pub negate : Query → Query
  pub falsepredicate : Query

module _ (core : Core) where
  open core use {
    Query, Column, Value, Object, LinkChain, column_compare, column_links, get_bool, get_table,
    key_target, compare_on,
  }

  -- `equal` and so on of subexpr
  unfoldable pub chain_compare : Comparison → LinkChain → Column → Option Value → Query
  chain_compare op l c (some rhs) = column_compare op l c (some rhs)
  chain_compare op l c none = column_compare op l c none

  -- The comparison on query::dictionary_link_subexpr: on the column of the table that the entry for
  -- the key links to. The query, the key and the link are not in it.
  unfoldable pub dictionary_link_compare :
      Comparison → Column → Column → Bytes → Option Value → Query → Query
  dictionary_link_compare op column_key link_column_key key rhs q =
      compare_on op (key_target (get_table q) column_key key) link_column_key rhs

  -- `mixed_equal` and `mixed_not_equal` of subexpr, where `if (rhs)` converts the value to bool.
  unfoldable pub chain_compare_mixed : Comparison → LinkChain → Column → Value → Query
  chain_compare_mixed op l c rhs =
      if get_bool rhs then column_compare op l c (some rhs) else column_compare op l c none

  -- `equal` and `not_equal` of subexpr for links; `is_equal` tells them apart.
  unfoldable pub chain_links_to : Bool → LinkChain → Column → Option Object → Query
  chain_links_to is_equal l c (some rhs) = column_links is_equal l c (some rhs)
  chain_links_to is_equal l c none = column_links false l c none
