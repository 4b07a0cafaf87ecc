-- ===== src/Query/Small.antt =====
-- A small core for the tests of queries: a row gives each column a number, and a query is the table
-- with the test of a row.
use realm_cpp.Prelude.{
  ℕ, ◌+◌, refl, List, [], ◌∷◌, Bool, true, false, not, ◌&&◌, ◌||◌, Option, none, some, ◌==◌, ltb,
}
use realm_cpp.Query.{Comparison, Core}
use realm_cpp.Query.Laws.{Laws}

-- A row is the number of each column.
abbrev pub Numbers : Type 0
Numbers = ℕ → ℕ

abbrev pub Selection : Type 0
Selection = Numbers → Bool

abbrev pub compared : Comparison → ℕ → Option ℕ → Selection
compared op c none o = false
compared Comparison.equal c (some v) o = o c == v
compared Comparison.not_equal c (some v) o = not (o c == v)
compared Comparison.greater c (some v) o = ltb v (o c)
compared Comparison.less c (some v) o = ltb (o c) v
compared Comparison.greater_equal c (some v) o = not (ltb (o c) v)
compared Comparison.less_equal c (some v) o = not (ltb v (o c))

abbrev pub points : ℕ → Option ℕ → Selection
points c none o = false
points c (some v) o = o c == v

abbrev pub small : Core
small = record {
  Query = ℕ × Selection;
  Table = ℕ;
  Column = ℕ;
  Value = ℕ;
  Object = ℕ;
  LinkChain = ℕ × List ℕ;
  from_table = λ t. (t, λ o. true);
  get_table = λ q. q.0;
  get_link = λ t c. (t, c ∷ []);
  link = λ l c. (l.0, c ∷ l.1);
  compare = λ op c v q. (q.0, λ o. q.1 o && compared op c v o);
  contains = λ c v cs q. (q.0, λ o. q.1 o && (o c == v));
  links_to = λ c v q. (q.0, λ o. q.1 o && points c v o);
  not_links_to = λ c v q. (q.0, λ o. q.1 o && not (points c v o));
  column_compare = λ op l c v. (l.0, compared op c v);
  chain_contains = λ l c v cs. (l.0, λ o. o c == v);
  column_links = λ b l c v. (l.0, λ o. elim b [ true ↦ points c v o | false ↦ not (points c v o) ]);
  get_bool = λ v. not (v == 0);
  text_as_mixed = λ l c v. (l.0, λ o. false);
  key_target = λ t d k. t + 1;
  compare_on = λ op t c v. (t, compared op c v);
  dictionary = λ t c k v q. (q.0, compared Comparison.equal c v);
  and_query = λ p q. (p.0, λ o. p.1 o && q.1 o);
  or_query = λ p q. (p.0, λ o. p.1 o || q.1 o);
  negate = λ q. (q.0, λ o. not (q.1 o));
  falsepredicate = (0, λ o. false);
}

abbrev pub small-Laws : Laws small
small-Laws = record {
  Row = Numbers;
  matches = λ q o. q.1 o;
  chain_table = λ l. l.0;
  meets = compared;
  includes = λ c v cs o. o c == v;
  linked = points;
  chain_meets = λ op l c v o. compared op c v o;
  chain_includes = λ l c v cs o. o c == v;
  chain_linked = λ l c v o. points c v o;
  looked_up = λ t c k v o. compared Comparison.equal c v o;
  matches_from_table = λ t o. refl;
  matches_compare = λ op c v q o. refl;
  matches_contains = λ c v cs q o. refl;
  matches_links_to = λ c v q o. refl;
  matches_not_links_to = λ c v q o. refl;
  matches_column_compare = λ op l c v o. refl;
  matches_chain_contains = λ l c v cs o. refl;
  matches_column_links = λ l c v o. (refl, refl);
  matches_compare_on = λ op t c v o. refl;
  matches_dictionary = λ t c k v q o. refl;
  matches_and = λ p q o. refl;
  matches_or = λ p q o. refl;
  matches_negate = λ q o. refl;
  matches_false = λ o. refl;
  chain_table_get = λ t c. refl;
  chain_table_link = λ l c. refl;
  table_from = λ t. refl;
  table_compare = λ op c v q. refl;
  table_contains = λ c v cs q. refl;
  table_column_compare = λ op l c v. refl;
  table_chain_contains = λ l c v cs. refl;
  table_column_links = λ b l c v. refl;
  table_compare_on = λ op t c v. refl;
  table_dictionary = λ t c k v q. refl;
}
