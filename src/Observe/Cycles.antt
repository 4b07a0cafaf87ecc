-- ===== src/Observe/Cycles.antt =====
-- include/cpprealm/observation.hpp: what the block is told about a sequence of changes.
use realm_cpp.Prelude.{
  ℕ, ◌≡◌, refl, sym, ap, ◌∙◌, inl, inr, List, [], ◌∷◌, ◌++◌, append_assoc, append-nil, map, Bool,
  true, false, Option, none, some, if◌then◌else◌, arith, Bool-cases,
}
use realm_cpp.Prelude.Bytes.{Bytes}
use realm_cpp.Schema.{Property}
use realm_cpp.Observe.{
  ChangeSet, Wrapper, no_items, forward_end, ObjectChange, values_of, value_of, changed,
  populate_properties, before, after, forwarded, step, run, deliver,
}
use realm_cpp.Observe.Safety.{read_values_empty, read_values_full, after_of}
use realm_cpp.Observe.Notices.{
  listed_names, changed-listed_names, paired, forward_change-paired, Cycle, gone, calls, no_columns,
  names_if_any, gone_alive, gone_deleted,
}

module _ {ℓ κ ι} {Obj : Type ℓ} {V : Type κ} {Error : Type ι} (monostate : V)
    (column_key : Bytes → ℕ) (p : Property Obj V) (ps : List (Property Obj V)) where
  abbrev state : Bool → List (ObjectChange V Error) → Wrapper V Error
  state deleted delivered = record {
    property_names = none;
    old_values = none;
    deleted = deleted;
    delivered = delivered;
  }

  unfoldable pub told : List Bytes → Obj → Obj → List (ObjectChange V Error)
  told [] old new = []
  told (n ∷ ns) old new =
      record {
        object = true;
        is_deleted = false;
        error = none;
        property_changes =
            map (paired (value_of monostate p ps old) (value_of monostate p ps new)) (n ∷ ns);
      }
      ∷ []

  -- What the block is to be told of one change.
  unfoldable pub notice : Bool → Cycle Obj → List (ObjectChange V Error)
  notice deleted ((old, new), c) =
      if gone deleted c
      then forward_end none ∷ []
      else if c.empty
      then []
      else told (listed_names column_key c.columns (p ∷ ps)) old new

  unfoldable pub notices : Bool → List (Cycle Obj) → List (ObjectChange V Error)
  notices deleted [] = []
  notices deleted (y ∷ ys) = notice deleted y ++ notices (gone deleted y.1) ys

  abbrev named : Bool → List (ObjectChange V Error) → List Bytes → Option (List V) → Wrapper V Error
  named deleted delivered names olds = record {
    property_names = names_if_any names;
    old_values = olds;
    deleted = deleted;
    delivered = delivered;
  }

  populate_deletes :
      (c : ChangeSet) (s : Wrapper V Error)
      → no_items c.deletions ≡ false
      → s.property_names ≡ none
      → populate_properties monostate column_key p ps c s ≡ record s { deleted = true }
  unfolding populate_properties
  populate_deletes c s e n = simp (populate_properties, n, e)

  populate_changes :
      (c : ChangeSet) (d : Bool) (h : List (ObjectChange V Error)) (olds : Option (List V))
      → no_items c.deletions ≡ true
      → populate_properties monostate column_key p ps c (named d h [] olds)
        ≡ named d h (changed column_key c (p ∷ ps)) olds
  unfolding populate_properties no_items
  populate_changes c d h olds e = ground (arith, no_columns column_key c (p ∷ ps))

  populate_again :
      (c : ChangeSet) (d : Bool) (h : List (ObjectChange V Error)) (names : List Bytes)
      (olds : Option (List V))
      → no_items c.deletions ≡ true
      → changed column_key c (p ∷ ps) ≡ names
      → populate_properties monostate column_key p ps c (named d h names olds)
        ≡ named d h names olds
  unfolding populate_properties
  populate_again c d h [] olds e q =
      populate_changes c d h olds e ∙ ap (λ (ns : List Bytes). named d h ns olds) q
  populate_again c d h (n ∷ ns) olds e q = refl

  forwarded-named :
      (old new : Obj) (d : Bool) (h : List (ObjectChange V Error)) (names : List Bytes)
      → forwarded
          (values_of (value_of monostate p ps new) (names_if_any names))
          (named d h names (values_of (value_of monostate p ps old) (names_if_any names)))
        ≡ some (
            named d
              (h ++ (if d then forward_end none ∷ [] else told names old new))
              names
              (values_of (value_of monostate p ps old) (names_if_any names)))
  unfolding forwarded values_of told deliver
  forwarded-named old new true h names = refl
  forwarded-named old new false h [] =
      ap (λ (l : List (ObjectChange V Error)). some (named false l [] none)) (sym (append-nil h))
  forwarded-named old new false h (n ∷ ns) = rw (
      forward_change-paired {Error = Error} (value_of monostate p ps old)
        (value_of monostate p ps new) (n ∷ ns))

  before_empty :
      (o : Obj) (c : ChangeSet) (s : Wrapper V Error)
      → c.empty ≡ true
      → before monostate column_key p ps o c s ≡ record s { old_values = none }
  unfolding before
  before_empty o c s e = rw (before, read_values_empty monostate column_key p ps o c s e)

  before_full :
      (o : Obj) (c : ChangeSet) (s : Wrapper V Error)
      → c.empty ≡ false
      → before monostate column_key p ps o c s
        ≡ record (populate_properties monostate column_key p ps c s) {
          old_values =
              values_of
                (value_of monostate p ps o)
                (populate_properties monostate column_key p ps c s).property_names;
        }
  unfolding before
  before_full o c s e = rw (before, read_values_full monostate column_key p ps o c s e)

  -- `after` on the state that `before` left.
  abbrev after_in : Obj → ChangeSet → Wrapper V Error → Option (Wrapper V Error)
  after_in new c s = after monostate column_key p ps new c s

  after-named :
      (old new : Obj) (c : ChangeSet) (d : Bool) (h : List (ObjectChange V Error))
      (names : List Bytes)
      → c.empty ≡ false
      → no_items c.deletions ≡ true
      → changed column_key c (p ∷ ps) ≡ names
      → after_in new c
          (named d h names (values_of (value_of monostate p ps old) (names_if_any names)))
        ≡ some (state d (h ++ (if d then forward_end none ∷ [] else told names old new)))
  after-named old new c d h names e n q =
      let olds = values_of (value_of monostate p ps old) (names_if_any names) in
      after_of monostate column_key p ps new c (named d h names olds)
        (named d h names olds, values_of (value_of monostate p ps new) (names_if_any names)) _
        (read_values_full monostate column_key p ps new c (named d h names olds) e
          ∙ ap
              (λ (s : Wrapper V Error).
                (s, values_of (value_of monostate p ps new) s.property_names))
              (populate_again c d h names olds n q))
        (forwarded-named old new d h names)

  after-empty :
      (new : Obj) (c : ChangeSet) (d : Bool) (h : List (ObjectChange V Error))
      → c.empty ≡ true
      → after_in new c (state d h) ≡ some (state d (h ++ (if d then forward_end none ∷ [] else [])))
  unfolding values_of told
  after-empty new c d h e =
      after_of monostate column_key p ps new c (state d h) (state d h, none) _
        (read_values_empty monostate column_key p ps new c (state d h) e)
        (forwarded-named new new d h [])

  after-deleted :
      (new : Obj) (c : ChangeSet) (d : Bool) (h : List (ObjectChange V Error))
      → c.empty ≡ false
      → no_items c.deletions ≡ false
      → after_in new c (state d h) ≡ some (state true (h ++ forward_end none ∷ []))
  unfolding values_of
  after-deleted new c d h e n =
      after_of monostate column_key p ps new c (state d h) (state true h, none) _
        (read_values_full monostate column_key p ps new c (state d h) e
          ∙ ap
              (λ (s : Wrapper V Error).
                (s, values_of (value_of monostate p ps new) s.property_names))
              (populate_deletes c (state d h) n refl))
        (forwarded-named new new true h [])

  notice_empty :
      (y : Obj × Obj) (c : ChangeSet) (d : Bool)
      → c.empty ≡ true
      → notice d (y, c) ≡ (if d then forward_end none ∷ [] else [])
  unfolding notice gone
  notice_empty y c d e = ground (arith, e)

  notice-changed :
      (old new : Obj) (c : ChangeSet) (d : Bool)
      → c.empty ≡ false
      → no_items c.deletions ≡ true
      → notice d ((old, new), c)
        ≡ (if d then forward_end none ∷ [] else told (changed column_key c (p ∷ ps)) old new)
  unfolding notice gone
  notice-changed old new c d e n =
      rw (changed-listed_names column_key c (p ∷ ps)) (ground (arith, e, n))

  notice_deleted :
      (y : Obj × Obj) (c : ChangeSet) (d : Bool)
      → c.empty ≡ false
      → no_items c.deletions ≡ false
      → notice d (y, c) ≡ forward_end none ∷ []
  unfolding notice gone
  notice_deleted y c d e n = ground (arith, e, n)

  after-before :
      (old new : Obj) (c : ChangeSet) (d : Bool) (h : List (ObjectChange V Error))
      → after_in new c (before monostate column_key p ps old c (state d h))
        ≡ some (state (gone d c) (h ++ notice d ((old, new), c)))
  after-before old new c d h = elim (Bool-cases c.empty) [
    | inl e ↦
        rw (before_empty old c (state d h) e, gone_alive d c (inl e), notice_empty (old, new) c d e)
          (after-empty new c d h e)
    | inr e ↦ elim (Bool-cases (no_items c.deletions)) [
      | inl n ↦
          rw
            (
              before_full old c (state d h) e,
              populate_changes c d h none n,
              gone_alive d c (inr n),
              notice-changed old new c d e n,
            )
            (after-named old new c d h (changed column_key c (p ∷ ps)) e n refl)
      | inr n ↦
          rw
            (
              before_full old c (state d h) e,
              populate_deletes c (state d h) n refl,
              gone_deleted d c e n,
              notice_deleted (old, new) c d e n,
            )
            (unfold values_of in after-deleted new c true h e n)
    ]
  ]

  run_cycle :
      (old new : Obj) (c : ChangeSet) (ys : List (Cycle Obj)) (s t : Wrapper V Error)
      → after_in new c (before monostate column_key p ps old c s) ≡ some t
      → run monostate column_key p ps (calls (((old, new), c) ∷ ys)) s
        ≡ run monostate column_key p ps (calls ys) t
  unfolding calls run step
  run_cycle old new c ys s t e =
      ap
        (λ (o : Option (Wrapper V Error)). elim o [
          | none ↦ none
          | some u ↦ run monostate column_key p ps (calls ys) u
        ])
        e

  -- From a wrapper between two changes, any sequence of changes, each with one call before it and
  -- one after it, returns and calls the block as follows: once with the object where a property has
  -- changed, with the names of just the changed properties in the order of the schema and the values
  -- that are read by these names before and after; once with `is_deleted` at the change that deletes
  -- the object and at every later one; and not at all for any other change.
  pub run-calls :
      (ys : List (Cycle Obj)) (d : Bool) (h : List (ObjectChange V Error))
      → (e : Bool) × (run monostate column_key p ps (calls ys) (state d h)
          ≡ some (state e (h ++ notices d ys)))
  unfolding notices run calls
  run-calls [] d h =
      (d, ap (λ (l : List (ObjectChange V Error)). some (state d l)) (sym (append-nil h)))
  run-calls (((old, new), c) ∷ ys) d h =
      let r = run-calls ys (gone d c) (h ++ notice d ((old, new), c)) in
      (
        r.0,
        run_cycle old new c ys (state d h) _ (after-before old new c d h)
            ∙ r.1
            ∙ ap (λ (l : List (ObjectChange V Error)). some (state r.0 l))
                (append_assoc h (notice d ((old, new), c)) (notices (gone d c) ys)),
      )
