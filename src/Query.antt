-- ===== src/Query.antt =====
-- include/cpprealm/rbool.hpp: the expressions that a query is written with.
--
-- `rbool` is either a Boolean or a query of realm-core; the `mutable` query of an operand is changed
-- by `&&`, `||` and `!`, so these return the operand as it is afterwards too. realm-core's queries are
-- the record `Core`, values that are copied when an `rbool` is; its laws are in Query/Laws.antt.
-- The columns' types, which select among overloads of the same text, are in the values.
pub mod Subexpr
pub mod Laws
pub mod Atoms
pub mod Meaning
pub mod Small
mod Tests
use realm_cpp.Prelude.{
  ℕ, List, [], ◌∷◌, Bool, true, false, not, ◌&&◌, Option, none, some, if◌then◌else◌,
}
use realm_cpp.Prelude.Bytes.{Bytes}
pub use realm_cpp.Query.Subexpr.{
  Comparison, equal, not_equal, greater, less, greater_equal, less_equal, DictionaryTest,
  value_compares, contains_string, has_key, Core,
}
unfoldable pub use realm_cpp.Query.Subexpr.{
  chain_compare, chain_compare_mixed, chain_links_to, dictionary_link_compare,
}

module _ (core : Core) where
  open core use {
    Query, Table, Column, Value, Object, LinkChain, from_table, get_table, get_link, link, compare,
    contains, links_to, not_links_to, chain_contains, text_as_mixed, dictionary, and_query,
    or_query, negate, falsepredicate,
  }

  -- An `rbool` for queries, which the managed objects in a query point to. `m_table` is the table
  -- that the constructor took from the query.
  pub record Root : Type 0 where
    pub q : Query
    pub m_link_chain : Option LinkChain
    pub m_table : Table
    pub m_dictionary_ctx : Option (Column × Bytes)

  -- rbool(internal::bridge::query &&)
  unfoldable pub make_root : Query → Root
  make_root q = record {
    q = q;
    m_link_chain = none;
    m_table = get_table q;
    m_dictionary_ctx = none;
  }

  -- The union of `b` and `q` with `is_for_queries`, all that a copy of an `rbool` takes over.
  pub data Rbool : Type 0 where
    boolean : Bool → Rbool
    query : Query → Rbool

  -- rbool(const rbool &)
  unfoldable pub copy : Root → Rbool
  copy s = query s.q

  pub add_link_chain : Column → Root → Root
  add_link_chain col_key s = elim s.m_link_chain [
    | some chain ↦ record s { m_link_chain = some (link chain col_key) }
    | none ↦ record s { m_link_chain = some (get_link s.m_table col_key) }
  ]

  pub add_link_chains : List Column → Root → Root
  add_link_chains [] s = s
  add_link_chains (c ∷ cs) s = add_link_chains cs (add_link_chain c s)

  pub add_dictionary_link_chain : Column × Bytes → Root → Root
  add_dictionary_link_chain ctx s = record s { m_dictionary_ctx = some ctx }

  -- define_query and define_numeric_query
  unfoldable pub comparison : Comparison → Column → Option Value → Root → Root
  unfolding chain_compare dictionary_link_compare
  comparison op col_key rhs s = elim s.m_link_chain [
    | some lc ↦ record s { q = chain_compare core op lc col_key rhs; m_link_chain = none }
    | none ↦ elim s.m_dictionary_ctx [
      | some ctx ↦ record s {
        q = dictionary_link_compare core op ctx.0 col_key ctx.1 rhs s.q;
        m_dictionary_ctx = none;
      }
      | none ↦ record s { q = compare op col_key rhs (from_table (get_table s.q)) }
    ]
  ]

  pub contains_text : Column → Value → Bool → Root → Root
  contains_text col_key rhs case_sensitive s = elim s.m_link_chain [
    | some lc ↦ record s { q = chain_contains lc col_key rhs case_sensitive; m_link_chain = none }
    | none ↦ record s { q = contains col_key rhs case_sensitive (from_table (get_table s.q)) }
  ]

  -- mixed_equal and mixed_not_equal, by the Comparison
  chain_mixed : Comparison → LinkChain → Column → Value → Query
  unfolding chain_compare_mixed
  chain_mixed equal lc col_key rhs = text_as_mixed lc col_key rhs
  chain_mixed op lc col_key rhs = chain_compare_mixed core op lc col_key rhs

  pub mixed_comparison : Comparison → Column → Value → Root → Root
  unfolding chain_mixed
  mixed_comparison op col_key rhs s = elim s.m_link_chain [
    | some lc ↦ record s { q = chain_mixed op lc col_key rhs; m_link_chain = none }
    | none ↦ record s { q = compare op col_key (some rhs) s.q }
  ]

  unfoldable pub link_equal : Column → Option Object → Root → Root
  unfolding chain_links_to
  link_equal col_key rhs s = elim s.m_link_chain [
    | some lc ↦ record s { q = chain_links_to core true lc col_key rhs; m_link_chain = none }
    | none ↦ record s { q = links_to col_key rhs s.q }
  ]

  unfoldable pub link_not_equal : Column → Option Object → Root → Root
  unfolding chain_links_to
  link_not_equal col_key rhs s = elim s.m_link_chain [
    | some lc ↦ record s { q = chain_links_to core false lc col_key rhs; m_link_chain = none }
    | none ↦ record s { q = not_links_to col_key rhs s.q }
  ]

  -- dictionary_has_value_for_key_..., dictionary_contains_string_for_key and dictionary_has_key
  unfoldable pub dictionary_test : DictionaryTest → Column → Bytes → Option Value → Root → Root
  dictionary_test t column_key key value s = record s {
    q = dictionary t column_key key value (from_table (get_table s.q));
  }

  -- `&&`, `||` and `!`: the result, and the left operand as it is afterwards. `none` is the reading of
  -- the union's other member.
  pub and_op : Rbool → Rbool → Option (Rbool × Rbool)
  and_op (query l) (query r) = some (query (and_query l r), query (and_query l r))
  and_op (query l) (boolean r) = none
  and_op (boolean l) (boolean r) = some (boolean (l && r), boolean l)
  and_op (boolean true) (query r) = none
  and_op (boolean false) (query r) = some (boolean false, boolean false)

  pub or_op : Rbool → Rbool → Option (Rbool × Rbool)
  or_op (query l) (query r) = some (query (or_query l r), query (or_query l r))
  or_op (query l) (boolean r) = none
  or_op (boolean l) (boolean r) = some (boolean (l && r), boolean l)
  or_op (boolean true) (query r) = none
  or_op (boolean false) (query r) = some (boolean false, boolean false)

  pub not_op : Rbool → Rbool × Rbool
  not_op (query q) = (query (negate q), query (negate q))
  not_op (boolean b) = (boolean (not b), boolean b)

  -- On an object that is used in a query; it throws on any other.
  pub truepredicate : Option Root → Option Rbool
  truepredicate none = none
  truepredicate (some s) = some (query (from_table (get_table s.q)))

  pub falsepredicate_of : Option Root → Option Rbool
  falsepredicate_of none = none
  falsepredicate_of (some s) = some (query (and_query (from_table (get_table s.q)) falsepredicate))

  -- What a function given to `where` is written with.
  pub data Test : Type 0 where
    compares : Comparison → Column → Option Value → Test
    compares_in : Column × Bytes → Comparison → Column → Option Value → Test
    contains_in : Column → Value → Bool → Test
    compares_mixed : Comparison → Column → Value → Test
    links unlinks : Column → Option Object → Test
    looks_up : DictionaryTest → Column → Bytes → Option Value → Test

  pub data Term : Type 0 where
    atom : List Column → Test → Term
    both either : Term → Term → Term
    negated : Term → Term
    all nothing : Term

  pub apply : Test → Root → Root
  unfolding comparison add_dictionary_link_chain contains_text mixed_comparison link_equal
      link_not_equal dictionary_test
  apply (compares op col rhs) s = comparison op col rhs s
  apply (compares_in ctx op col rhs) s = comparison op col rhs (add_dictionary_link_chain ctx s)
  apply (contains_in col rhs cs) s = contains_text col rhs cs s
  apply (compares_mixed op col rhs) s = mixed_comparison op col rhs s
  apply (links col rhs) s = link_equal col rhs s
  apply (unlinks col rhs) s = link_not_equal col rhs s
  apply (looks_up t col key value) s = dictionary_test t col key value s

  -- The result of a binary operator, where both operands are there.
  joined : (Rbool → Rbool → Option (Rbool × Rbool)) → Option Rbool → Option Rbool → Option Rbool
  joined op none r = none
  joined op (some l) none = none
  joined op (some l) (some r) = elim (op l r) [ none ↦ none | some x ↦ some x.0 ]

  -- The `rbool` that an expression gives, and the shared one afterwards; operands from left to right.
  pub eval : Term → Root → Option Rbool × Root
  unfolding joined copy apply
  eval (atom path t) s =
      (some (copy (apply t (add_link_chains path s))), apply t (add_link_chains path s))
  eval (both a b) s = let l = eval a s in let r = eval b l.1 in (joined and_op l.0 r.0, r.1)
  eval (either a b) s = let l = eval a s in let r = eval b l.1 in (joined or_op l.0 r.0, r.1)
  eval (negated a) s =
      let l = eval a s in (elim l.0 [ none ↦ none | some x ↦ some (not_op x).0 ], l.1)
  eval all s = (truepredicate (some s), s)
  eval nothing s = (falsepredicate_of (some s), s)
