-- ===== src/Query/Atoms.antt =====
-- include/cpprealm/rbool.hpp: the single tests, directly and behind a link chain.
use realm_cpp.Prelude.{◌≡◌, refl, ap, sym, ◌∙◌, List, [], ◌∷◌, true, false, Option, none, some}
use realm_cpp.Query.{
  Comparison, Core, Root, query, Test, compares, compares_in, contains_in, compares_mixed, links,
  unlinks, looks_up, atom, add_link_chain, add_link_chains, apply, eval, comparison, contains_text,
  link_equal, link_not_equal, dictionary_test, add_dictionary_link_chain, copy, chain_compare,
  chain_links_to, dictionary_link_compare,
}
use realm_cpp.Query.Laws.{
  Laws, root, chain_on, holds, holds_behind, direct, behind, self_contained, stays, keeps_table,
  truth, Means,
}

module _ (core : Core) (laws : Laws core) where
  open core use {Query, Table, Column, Value, Object, LinkChain, get_link, link, get_table}
  open laws use {
    Row, matches, chain_table, meets, includes, linked, chain_meets, chain_includes, chain_linked,
    looked_up, matches_from_table, matches_compare, matches_contains, matches_column_compare,
    matches_chain_contains, matches_column_links, matches_compare_on, matches_dictionary,
    matches_and, matches_or, matches_negate, matches_false, chain_table_get, chain_table_link,
    table_from, table_compare, table_contains, table_column_compare, table_chain_contains,
    table_column_links, table_compare_on, table_dictionary, matches_links_to, matches_not_links_to,
  }

  abbrev start : Query → Table → Root core
  start q t = root core laws q t

  add_link_chains-some :
      (q : Query) (t : Table) (l : LinkChain) (cs : List Column)
      → add_link_chains core cs (record (start q t) { m_link_chain = some l })
        ≡ record (start q t) { m_link_chain = some (chain_on core laws l cs) }
  unfolding add_link_chains add_link_chain chain_on
  add_link_chains-some q t l [] = refl
  add_link_chains-some q t l (c ∷ cs) = add_link_chains-some q t (link l c) cs

  chain_table-chain_on :
      (l : LinkChain) (cs : List Column) → chain_table (chain_on core laws l cs) ≡ chain_table l
  unfolding chain_on
  chain_table-chain_on l [] = refl
  chain_table-chain_on l (c ∷ cs) = chain_table-chain_on (link l c) cs ∙ chain_table_link l c

  apply-direct :
      (x : Test core) (q : Query) (t : Table)
      → get_table q ≡ t
      → direct core laws x ≡ true
      → (r : Query) × (apply core x (start q t) ≡ start r t)
        × Means core laws (stays core laws x) t (holds core laws x) r
  unfolding apply direct stays dictionary_link_compare holds comparison contains_text
      dictionary_test add_dictionary_link_chain
  apply-direct (compares op c v) q t e d = (
    _,
    refl,
    record {
      table = λ s. table_compare op c v _ ∙ table_from (get_table q) ∙ e;
      rows = λ o. rw (
        matches_compare op c v (core.from_table (get_table q)) o,
        matches_from_table (get_table q) o,
      );
    },
  )
  apply-direct (compares_in ctx op c v) q t e d = (
    _,
    refl,
    record {
      table = λ s. cc;
      rows = λ o. matches_compare_on op (core.key_target (get_table q) ctx.0 ctx.1) c v o;
    },
  )
  apply-direct (contains_in c v cs) q t e d = (
    _,
    refl,
    record {
      table = λ s. table_contains c v cs _ ∙ table_from (get_table q) ∙ e;
      rows = λ o. rw (
        matches_contains c v cs (core.from_table (get_table q)) o,
        matches_from_table (get_table q) o,
      );
    },
  )
  apply-direct (compares_mixed op c v) q t e d = cc
  apply-direct (links c v) q t e d = cc
  apply-direct (unlinks c v) q t e d = cc
  apply-direct (looks_up x c k v) q t e d = (
    _,
    refl,
    record {
      table = λ s. table_dictionary x c k v _ ∙ table_from (get_table q) ∙ e;
      rows = matches_dictionary x c k v (core.from_table (get_table q));
    },
  )

  table-chain_compare :
      (op : Comparison) (l : LinkChain) (c : Column) (v : Option Value)
      → get_table (chain_compare core op l c v) ≡ chain_table l
  unfolding chain_compare
  table-chain_compare op l c none = table_column_compare op l c none
  table-chain_compare op l c (some v) = table_column_compare op l c (some v)

  matches-chain_compare :
      (op : Comparison) (l : LinkChain) (c : Column) (v : Option Value) (o : Row)
      → matches (chain_compare core op l c v) o ≡ chain_meets op l c v o
  unfolding chain_compare
  matches-chain_compare op l c none o = matches_column_compare op l c none o
  matches-chain_compare op l c (some v) o = matches_column_compare op l c (some v) o

  apply-behind :
      (x : Test core) (q : Query) (t : Table) (l : LinkChain)
      → chain_table l ≡ t
      → behind core laws x ≡ true
      → (r : Query) × (apply core x (record (start q t) { m_link_chain = some l }) ≡ start r t)
        × Means core laws true t (holds_behind core laws l x) r
  unfolding apply behind holds_behind comparison contains_text link_equal link_not_equal
      chain_links_to
  apply-behind (compares op c v) q t l e d = (
    chain_compare core op l c v,
    refl,
    record { table = λ s. table-chain_compare op l c v ∙ e; rows = matches-chain_compare op l c v },
  )
  apply-behind (compares_in ctx op c v) q t l e d = cc
  apply-behind (contains_in c v cs) q t l e d = (
    _,
    refl,
    record {
      table = λ s. table_chain_contains l c v cs ∙ e;
      rows = λ o. matches_chain_contains l c v cs o;
    },
  )
  apply-behind (compares_mixed op c v) q t l e d = cc
  apply-behind (links c none) q t l e d = cc
  apply-behind (links c (some v)) q t l e d = (
    _,
    refl,
    record {
      table = λ s. table_column_links true l c (some v) ∙ e;
      rows = λ o. (matches_column_links l c (some v) o).0;
    },
  )
  apply-behind (unlinks c none) q t l e d = (
    _,
    refl,
    record {
      table = λ s. table_column_links false l c none ∙ e;
      rows = λ o. (matches_column_links l c none o).1;
    },
  )
  apply-behind (unlinks c (some v)) q t l e d = (
    _,
    refl,
    record {
      table = λ s. table_column_links false l c (some v) ∙ e;
      rows = λ o. (matches_column_links l c (some v) o).1;
    },
  )
  apply-behind (looks_up x c k v) q t l e d = cc

  -- A test behind a link chain whether a link is null selects the rows that the opposite test selects.
  pub eval-links_null :
      (first : Column) (path : List Column) (col : Column) (q : Query) (t : Table)
      → eval core (atom (first ∷ path) (links col none)) (start q t)
        ≡ eval core (atom (first ∷ path) (unlinks col none)) (start q t)
  unfolding eval apply link_equal link_not_equal chain_links_to add_link_chains add_link_chain copy
  eval-links_null first path col q t =
      let chained = add_link_chains-some q t (get_link t first) path in
      ap
        (λ (s : Root core).
          (some (copy core (apply core (links col none) s)), apply core (links col none) s))
        chained
      ∙ sym (
          ap
            (λ (s : Root core).
              (some (copy core (apply core (unlinks col none) s)), apply core (unlinks col none) s))
            chained)

  pub eval-atom :
      (path : List Column) (x : Test core) (q : Query) (t : Table)
      → get_table q ≡ t
      → self_contained core laws (atom path x) ≡ true
      → (r : Query) × (eval core (atom path x) (start q t) ≡ (some (query r), start r t))
        × Means core laws
            (keeps_table core laws (atom path x))
            t
            (truth core laws t (atom path x))
            r
  unfolding eval add_link_chains add_link_chain self_contained keeps_table truth copy
  eval-atom [] x q t e d =
      let r = apply-direct x q t e d in
      (r.0, ap (λ (s : Root core). (some (copy core s), s)) r.1, r.2)
  eval-atom (c ∷ cs) x q t e d =
      let l = chain_on core laws (get_link t c) cs in
      let r =
        apply-behind x q t l (chain_table-chain_on (get_link t c) cs ∙ chain_table_get t c) d in
      (
        r.0,
        ap (λ (s : Root core). (some (copy core (apply core x s)), apply core x s))
              (add_link_chains-some q t (get_link t c) cs)
            ∙ ap (λ (s : Root core). (some (copy core s), s)) r.1,
        r.2,
      )
