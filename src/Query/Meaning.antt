-- ===== src/Query/Meaning.antt =====
-- include/cpprealm/rbool.hpp: which rows the query of an expression selects.
use realm_cpp.Prelude.{◌≡◌, refl, ap, ◌∙◌, List, [], Bool, true, false, ◌&&◌, ◌||◌, some, arith}
use realm_cpp.Query.{
  Core, Root, query, Test, Term, compares, compares_in, contains_in, compares_mixed, links, unlinks,
  looks_up, atom, either, add_link_chains, apply, eval, mixed_comparison, link_equal,
  link_not_equal, copy, joined, or_op,
}
use realm_cpp.Query.Laws.{Laws, root, holds, direct, self_contained, truth}
use realm_cpp.Query.Atoms.{eval-atom}

module _ (core : Core) (laws : Laws core) where
  open core use {Query, Table, Column, Value, Object, LinkChain, get_link, link, get_table}
  open laws use {
    Row, matches, chain_table, meets, includes, linked, chain_meets, chain_includes, chain_linked,
    looked_up, matches_from_table, matches_compare, matches_contains, matches_column_compare,
    matches_chain_contains, matches_column_links, matches_compare_on, matches_dictionary,
    matches_and, matches_or, matches_negate, matches_false, chain_table_get, chain_table_link,
    table_from, table_compare, table_contains, table_column_compare, table_chain_contains,
    table_column_links, table_compare_on, table_dictionary, matches_links_to, matches_not_links_to,
  }

  abbrev start : Query → Table → Root core
  start q t = root core laws q t

  -- What an expression evaluates to: a query that means it, and a root ready for the next test.
  abbrev pub Evaluates : Term core → Query → Table → Type 0
  Evaluates a q t =
      (r q' : Query) × (eval core a (start q t) ≡ (some (query r), start q' t))
      × (get_table q' ≡ t)
      × ((o : Row) → matches r o ≡ truth core laws t a o)

  apply_stale :
      (y : Test core) (q : Query) (t : Table)
      → direct core laws y ≡ false
      → (r : Query) × (apply core y (start q t) ≡ start r t)
        × ((o : Row) → matches r o ≡ (matches q o && holds core laws y o))
  unfolding apply direct holds mixed_comparison link_equal link_not_equal
  apply_stale (compares op c v) q t d = cc
  apply_stale (compares_in ctx op c v) q t d = cc
  apply_stale (contains_in c v cs) q t d = cc
  apply_stale (compares_mixed op c v) q t d = (_, refl, λ o. matches_compare op c (some v) q o)
  apply_stale (links c v) q t d = (_, refl, λ o. matches_links_to c v q o)
  apply_stale (unlinks c v) q t d = (_, refl, λ o. matches_not_links_to c v q o)
  apply_stale (looks_up x c k v) q t d = cc

  absorbs : (a b c h : Bool) → a ≡ c → b ≡ (a && h) → (a || b) ≡ c
  absorbs a b c h e f = ground (arith, e, f)

  eval-either :
      (a b : Term core) (s s1 s2 : Root core) (p r : Query)
      → eval core a s ≡ (some (query p), s1)
      → eval core b s1 ≡ (some (query r), s2)
      → eval core (either a b) s ≡ (some (query (core.or_query p r)), s2)
  unfolding eval joined or_op
  eval-either a b s s1 s2 p r e f = rw (eval, e, f)

  eval-stale :
      (y : Test core) (s : Root core) (r : Query) (t : Table)
      → apply core y s ≡ start r t
      → eval core (atom [] y) s ≡ (some (query r), start r t)
  unfolding eval copy add_link_chains
  eval-stale y s r t e = ap (λ (u : Root core). (some (copy core u), u)) e

  -- A test on a mixed value or on a link that is not behind a link chain narrows the query of the
  -- test before it: `a || b` with such a test `b` selects just the rows of `a`.
  pub eval-either_stale :
      (path : List Column) (x y : Test core) (q : Query) (t : Table)
      → get_table q ≡ t
      → self_contained core laws (atom path x) ≡ true
      → direct core laws y ≡ false
      → (r : Query) × (s : Root core) × (eval core (either (atom path x) (atom [] y)) (start q t)
          ≡ (some (query r), s))
        × ((o : Row) → matches r o ≡ truth core laws t (atom path x) o)
  eval-either_stale path x y q t e d n =
      let l = eval-atom core laws path x q t e d in
      let r = apply_stale y l.0 t n in
      (
        core.or_query l.0 r.0,
        start r.0 t,
        eval-either (atom path x) (atom [] y) (start q t) (start l.0 t) (start r.0 t) l.0 r.0 l.1
            (eval-stale y (start l.0 t) r.0 t r.1),
        λ o.
            matches_or l.0 r.0 o
            ∙ absorbs (matches l.0 o) (matches r.0 o) (truth core laws t (atom path x) o)
                (holds core laws y o) (l.2.rows o) (r.2 o),
      )
