-- ===== src/Pointers/Comparisons.antt =====
-- include/cpprealm/link.hpp: the comparisons of pointers, on objects and in queries.
use realm_cpp.Prelude.{
  ℕ, ◌≡◌, ◌↔◌, refl, sym, ap, ◌∙◌, Bool, true, false, not, Option, none, some, ◌==◌, ==_refl, arith,
  if◌then◌else◌,
}
use realm_cpp.Query.{Core, Rbool, boolean, query, copy, make_root, link_equal, link_not_equal}
use realm_cpp.Query.Laws.{Laws}
use realm_cpp.Pointers.{
  CoreLinks, Pointer, ManagedObject, is_null_link, is_key, equals_object, differs_object,
  compare_object,
}

module _ {ℓ} {State : Type ℓ} (links : CoreLinks State) where
  open links use {linked}

  decide :
      (l : Option ℕ) (b : Bool) (k : ℕ)
      → (not (is_null_link l) ≡ not (if b then is_key l k else false))
        ↔ ((is_null_link l ≡ false) × ((if b then is_key l k else false) ≡ false))
  decide none true k = ground arith
  decide none false k = ground arith
  decide (some j) true k = ground arith
  decide (some j) false k = ground arith

  -- On an object `p != x` is the opposite of `p == x` only if the pointer is neither null nor a link
  -- to `x`: it is true for a link to `x` itself, and false for null.
  pub differs_object-equals_object :
      (p : Pointer) (x : ManagedObject) (st : State)
      → (differs_object links p x st ≡ not (equals_object links p x st)) ↔ (
          (is_null_link (linked p.m_obj p.m_key st) ≡ false) × (equals_object links p x st ≡ false))
  unfolding differs_object equals_object
  differs_object-equals_object p x st =
      decide (linked p.m_obj p.m_key st) (p.m_realm == x.m_realm) x.m_obj

module _ {ℓ} {State : Type ℓ} (links : CoreLinks State) (core : Core) (laws : Laws core)
    (object_at : ℕ → core.Object) where
  open links use {linked}
  open core use {Query, Table, Column, from_table}
  open laws use {Row, matches, matches_links_to, matches_not_links_to, matches_from_table}

  -- `pointer` gives the pointer that the object of a row has in the column.
  abbrev pub ReadsLinks : Column → (Row → Pointer) → State → Type 0
  ReadsLinks m_key pointer st =
      (o : Row) (k : ℕ)
      → laws.linked m_key (some (object_at k)) o
        ≡ is_key (linked (pointer o).m_obj (pointer o).m_key st) k

  -- What `==` or `!=` with `x` gives on the object of a row.
  abbrev pub on_object : Bool → (Row → Pointer) → ManagedObject → Column → State → Row → Rbool core
  on_object eq pointer x m_key st o =
      (compare_object links core object_at eq (pointer o) x m_key st none).0

  -- What they give in a query on the table.
  abbrev pub in_query : Bool → Pointer → ManagedObject → Column → State → Table → Rbool core
  in_query eq p x m_key st t =
      (compare_object links core object_at eq p x m_key st (some (make_root core (from_table t)))).0

  equal_rows :
      (m_key : Column) (pointer : Row → Pointer) (st : State) (x : ManagedObject) (t : Table)
      (o : Row)
      → ReadsLinks m_key pointer st
      → (pointer o).m_realm ≡ x.m_realm
      → matches (core.links_to m_key (some (object_at x.m_obj)) (from_table t)) o
        ≡ equals_object links (pointer o) x st
  unfolding equals_object
  equal_rows m_key pointer st x t o h r =
      matches_links_to m_key (some (object_at x.m_obj)) (from_table t) o
      ∙ rw (matches_from_table t o, h o x.m_obj, r, ==_refl x.m_realm) refl

  unequal_rows :
      (m_key : Column) (pointer : Row → Pointer) (st : State) (x : ManagedObject) (t : Table)
      (o : Row)
      → ReadsLinks m_key pointer st
      → (pointer o).m_realm ≡ x.m_realm
      → matches (core.not_links_to m_key (some (object_at x.m_obj)) (from_table t)) o
        ≡ not (equals_object links (pointer o) x st)
  unfolding equals_object
  unequal_rows m_key pointer st x t o h r =
      matches_not_links_to m_key (some (object_at x.m_obj)) (from_table t) o
      ∙ rw (matches_from_table t o, h o x.m_obj, r, ==_refl x.m_realm) refl

  -- In a query on a table, `==` with an object of the same Realm selects exactly the rows on whose
  -- object `==` is true, and `!=` selects all others.
  pub compare_object-Agrees :
      (m_key : Column) (pointer : Row → Pointer) (st : State) (p : Pointer) (x : ManagedObject)
      (t : Table)
      → ReadsLinks m_key pointer st
      → ((o : Row) → (pointer o).m_realm ≡ x.m_realm)
      → (r s : Query) × (in_query true p x m_key st t ≡ query r)
        × (in_query false p x m_key st t ≡ query s)
        × ((o : Row) → on_object true pointer x m_key st o ≡ boolean (matches r o))
        × ((o : Row) → on_object true pointer x m_key st o ≡ boolean (not (matches s o)))
  unfolding compare_object link_equal link_not_equal copy make_root
  compare_object-Agrees m_key pointer st p x t h r = (
    core.links_to m_key (some (object_at x.m_obj)) (from_table t),
    core.not_links_to m_key (some (object_at x.m_obj)) (from_table t),
    refl,
    refl,
    λ o. ap boolean (sym (equal_rows m_key pointer st x t o h (r o))),
    λ o. ap boolean (
        twice (equals_object links (pointer o) x st)
        ∙ ap not (sym (unequal_rows m_key pointer st x t o h (r o)))),
  )
    where
      twice : (b : Bool) → b ≡ not (not b)
      twice true = refl
      twice false = refl
