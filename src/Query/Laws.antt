-- ===== src/Query/Laws.antt =====
-- include/cpprealm/rbool.hpp: what the tests and the expressions of a query say of a row, given what
-- realm-core's queries mean.
use realm_cpp.Prelude.{◌≡◌, List, [], ◌∷◌, Bool, true, false, not, ◌&&◌, ◌||◌, Option, none, some}
use realm_cpp.Prelude.Bytes.{Bytes}
use realm_cpp.Query.{
  Comparison, DictionaryTest, Core, Root, Test, Term, compares, compares_in, contains_in,
  compares_mixed, links, unlinks, looks_up, atom, both, either, negated, all, nothing,
}

-- What realm-core's queries mean: `matches` says which rows a query selects. A query on a table
-- starts with all rows; a condition narrows the query that it is put on; each keeps its table.
pub record Laws (core : Core) : Type 1 where
  pub Row : Type 0
  pub matches : core.Query → Row → Bool
  pub chain_table : core.LinkChain → core.Table
  pub meets : Comparison → core.Column → Option core.Value → Row → Bool
  pub includes : core.Column → core.Value → Bool → Row → Bool
  pub linked : core.Column → Option core.Object → Row → Bool
  pub chain_meets : Comparison → core.LinkChain → core.Column → Option core.Value → Row → Bool
  pub chain_includes : core.LinkChain → core.Column → core.Value → Bool → Row → Bool
  pub chain_linked : core.LinkChain → core.Column → Option core.Object → Row → Bool
  pub looked_up : DictionaryTest → core.Column → Bytes → Option core.Value → Row → Bool
  pub matches_from_table : (t : core.Table) (o : Row) → matches (core.from_table t) o ≡ true
  pub matches_compare :
      (op : Comparison) (c : core.Column) (v : Option core.Value) (q : core.Query) (o : Row)
      → matches (core.compare op c v q) o ≡ (matches q o && meets op c v o)
  pub matches_contains :
      (c : core.Column) (v : core.Value) (cs : Bool) (q : core.Query) (o : Row)
      → matches (core.contains c v cs q) o ≡ (matches q o && includes c v cs o)
  pub matches_links_to :
      (c : core.Column) (v : Option core.Object) (q : core.Query) (o : Row)
      → matches (core.links_to c v q) o ≡ (matches q o && linked c v o)
  pub matches_not_links_to :
      (c : core.Column) (v : Option core.Object) (q : core.Query) (o : Row)
      → matches (core.not_links_to c v q) o ≡ (matches q o && not (linked c v o))
  pub matches_column_compare :
      (op : Comparison) (l : core.LinkChain) (c : core.Column) (v : Option core.Value) (o : Row)
      → matches (core.column_compare op l c v) o ≡ chain_meets op l c v o
  pub matches_chain_contains :
      (l : core.LinkChain) (c : core.Column) (v : core.Value) (cs : Bool) (o : Row)
      → matches (core.chain_contains l c v cs) o ≡ chain_includes l c v cs o
  pub matches_column_links :
      (l : core.LinkChain) (c : core.Column) (v : Option core.Object) (o : Row)
      → (matches (core.column_links true l c v) o ≡ chain_linked l c v o)
        × (matches (core.column_links false l c v) o ≡ not (chain_linked l c v o))
  pub matches_compare_on :
      (op : Comparison) (t : core.Table) (c : core.Column) (v : Option core.Value) (o : Row)
      → matches (core.compare_on op t c v) o ≡ meets op c v o
  pub matches_dictionary :
      (t : DictionaryTest) (c : core.Column) (k : Bytes) (v : Option core.Value) (q : core.Query)
      (o : Row)
      → matches (core.dictionary t c k v q) o ≡ looked_up t c k v o
  pub matches_and :
      (p q : core.Query) (o : Row) → matches (core.and_query p q) o ≡ (matches p o && matches q o)
  pub matches_or :
      (p q : core.Query) (o : Row) → matches (core.or_query p q) o ≡ (matches p o || matches q o)
  pub matches_negate : (q : core.Query) (o : Row) → matches (core.negate q) o ≡ not (matches q o)
  pub matches_false : (o : Row) → matches core.falsepredicate o ≡ false
  pub chain_table_get : (t : core.Table) (c : core.Column) → chain_table (core.get_link t c) ≡ t
  pub chain_table_link :
      (l : core.LinkChain) (c : core.Column) → chain_table (core.link l c) ≡ chain_table l
  pub table_from : (t : core.Table) → core.get_table (core.from_table t) ≡ t
  pub table_compare :
      (op : Comparison) (c : core.Column) (v : Option core.Value) (q : core.Query)
      → core.get_table (core.compare op c v q) ≡ core.get_table q
  pub table_contains :
      (c : core.Column) (v : core.Value) (cs : Bool) (q : core.Query)
      → core.get_table (core.contains c v cs q) ≡ core.get_table q
  pub table_column_compare :
      (op : Comparison) (l : core.LinkChain) (c : core.Column) (v : Option core.Value)
      → core.get_table (core.column_compare op l c v) ≡ chain_table l
  pub table_chain_contains :
      (l : core.LinkChain) (c : core.Column) (v : core.Value) (cs : Bool)
      → core.get_table (core.chain_contains l c v cs) ≡ chain_table l
  pub table_column_links :
      (b : Bool) (l : core.LinkChain) (c : core.Column) (v : Option core.Object)
      → core.get_table (core.column_links b l c v) ≡ chain_table l
  pub table_compare_on :
      (op : Comparison) (t : core.Table) (c : core.Column) (v : Option core.Value)
      → core.get_table (core.compare_on op t c v) ≡ t
  pub table_dictionary :
      (t : DictionaryTest) (c : core.Column) (k : Bytes) (v : Option core.Value) (q : core.Query)
      → core.get_table (core.dictionary t c k v q) ≡ core.get_table q

module _ (core : Core) (laws : Laws core) where
  open core use {Query, Table, Column, Value, Object, LinkChain, get_link, link, get_table}
  open laws use {
    Row, matches, chain_table, meets, includes, linked, chain_meets, chain_includes, chain_linked,
    looked_up, matches_from_table, matches_compare, matches_contains, matches_column_compare,
    matches_chain_contains, matches_column_links, matches_compare_on, matches_dictionary,
    matches_and, matches_or, matches_negate, matches_false, chain_table_get, chain_table_link,
    table_from, table_compare, table_contains, table_column_compare, table_chain_contains,
    table_column_links, table_compare_on, table_dictionary, matches_links_to, matches_not_links_to,
  }

  abbrev pub root : Query → Table → Root core
  root q t = record { q = q; m_link_chain = none; m_table = t; m_dictionary_ctx = none }

  -- The link chain for the columns behind the first one.
  unfoldable pub chain_on : LinkChain → List Column → LinkChain
  chain_on l [] = l
  chain_on l (c ∷ cs) = chain_on (link l c) cs

  -- What a test says of a row: directly, or behind a link chain. The test of an object that a
  -- dictionary links to is one of the rows of that object's table.
  unfoldable pub holds : Test core → Row → Bool
  holds (compares op c v) o = meets op c v o
  holds (compares_in ctx op c v) o = meets op c v o
  holds (contains_in c v cs) o = includes c v cs o
  holds (compares_mixed op c v) o = meets op c (some v) o
  holds (links c v) o = linked c v o
  holds (unlinks c v) o = not (linked c v o)
  holds (looks_up t c k v) o = looked_up t c k v o

  unfoldable pub holds_behind : LinkChain → Test core → Row → Bool
  holds_behind l (compares op c v) o = chain_meets op l c v o
  holds_behind l (compares_in ctx op c v) o = chain_meets op l c v o
  holds_behind l (contains_in c v cs) o = chain_includes l c v cs o
  holds_behind l (compares_mixed op c v) o = chain_meets op l c (some v) o
  holds_behind l (links c v) o = chain_linked l c v o
  holds_behind l (unlinks c v) o = not (chain_linked l c v o)
  holds_behind l (looks_up t c k v) o = looked_up t c k v o

  -- The tests that start from a new query, use up the link chain and test what they say: without a
  -- chain those on mixed values and on links do not; behind one those on mixed values, on dictionaries
  -- and for links that are null do not.
  unfoldable pub direct : Test core → Bool
  direct (compares_mixed op c v) = false
  direct (links c v) = false
  direct (unlinks c v) = false
  direct t = true

  unfoldable pub behind : Test core → Bool
  behind (compares_in ctx op c v) = false
  behind (looks_up t c k v) = false
  behind (compares_mixed op c v) = false
  behind (links c none) = false
  behind t = true

  unfoldable pub self_contained : Term core → Bool
  self_contained (atom [] t) = direct t
  self_contained (atom (c ∷ cs) t) = behind t
  self_contained (both a b) = self_contained a && self_contained b
  self_contained (either a b) = self_contained a && self_contained b
  self_contained (negated a) = self_contained a
  self_contained all = true
  self_contained nothing = true

  -- Whether a test stays on the table of the query, and an expression has such tests only.
  unfoldable pub stays : Test core → Bool
  stays (compares_in ctx op c v) = false
  stays t = true

  unfoldable pub keeps_table : Term core → Bool
  keeps_table (atom [] t) = stays t
  keeps_table (atom (c ∷ cs) t) = true
  keeps_table (both a b) = keeps_table a && keeps_table b
  keeps_table (either a b) = keeps_table a && keeps_table b
  keeps_table (negated a) = keeps_table a
  keeps_table all = true
  keeps_table nothing = true

  unfoldable pub truth : Table → Term core → Row → Bool
  truth t (atom [] x) o = holds x o
  truth t (atom (c ∷ cs) x) o = holds_behind (chain_on (get_link t c) cs) x o
  truth t (both a b) o = truth t a o && truth t b o
  truth t (either a b) o = truth t a o || truth t b o
  truth t (negated a) o = not (truth t a o)
  truth t all o = true
  truth t nothing o = false

  -- A query that selects the rows where `f` holds, and is one of the table `t` if it stays there.
  pub record Means (stays_there : Bool) (t : Table) (f : Row → Bool) (q : Query) : Type 0 where
    pub table : stays_there ≡ true → get_table q ≡ t
    pub rows : (o : Row) → matches q o ≡ f o
