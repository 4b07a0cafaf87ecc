-- ===== src/Observe/Safety.antt =====
-- include/cpprealm/observation.hpp: no order of calls reads past the end of a vector.
use realm_cpp.Prelude.{
  ℕ, zero, suc, ◌+◌, ◌≤◌, ◌<◌, ◌≡◌, refl, ap, ◌∙◌, ◌⊎◌, inl, inr, List, [], ◌∷◌, map, true, false,
  Option, none, some, length, length-map, get_elem?, arith, Bool-cases, Option-cases,
}
use realm_cpp.Prelude.Bytes.{Bytes}
use realm_cpp.Schema.{Property}
use realm_cpp.Observe.{
  ChangeSet, Wrapper, Event, befores, afters, errors, value_at, no_items, property_changes,
  PropertyChange, forward_change, ObjectChange, or_empty, values_of, value_of, populate_properties,
  read_values, before, after, forwarded, forward_end, step, run, error, deliver,
}

get_elem?-some {ℓ} :
    {V : Type ℓ} (vs : List V) (i : ℕ) → i < length vs → (v : V) × (get_elem? vs i ≡ some v)
get_elem?-some [] i h = absurd (omega arith)
get_elem?-some (v ∷ vs) zero h = (v, refl)
get_elem?-some (v ∷ vs) (suc i) h = get_elem?-some vs i (omega arith)

-- A vector that is empty, or has at least `n` values, can be read at the indices below `n`.
abbrev Covers {ℓ} : {V : Type ℓ} → ℕ → List V → Type ℓ
Covers n vs = (vs ≡ []) ⊎ (n ≤ length vs)

value_at-some {ℓ} :
    {V : Type ℓ} (vs : List V) (i n : ℕ)
    → i < n
    → Covers n vs
    → (o : Option V) × (value_at vs i ≡ some o)
unfolding value_at no_items
value_at-some [] i n h c = (none, refl)
value_at-some (v ∷ vs) i n h c =
    let r = get_elem?-some (v ∷ vs) i (ground arith) in (some r.0, rw r.1)

pub property_changes_cons {ℓ} :
    {V : Type ℓ} (i : ℕ) (name : Bytes) (names : List Bytes) (olds news : List V)
    (old new : Option V) (changes : List (PropertyChange V))
    → value_at olds i ≡ some old
    → value_at news i ≡ some new
    → property_changes (suc i) names olds news ≡ some changes
    → property_changes i (name ∷ names) olds news
      ≡ some (record { name = name; old_value = old; new_value = new } ∷ changes)
unfolding property_changes
property_changes_cons i name names olds news old new changes o n r = rw (property_changes, o, n, r)

property_changes-some {ℓ} :
    {V : Type ℓ} (i : ℕ) (names : List Bytes) (olds news : List V)
    → Covers (i + length names) olds
    → Covers (i + length names) news
    → (changes : List (PropertyChange V)) × (property_changes i names olds news ≡ some changes)
unfolding property_changes
property_changes-some i [] olds news ho hn = ([], refl)
property_changes-some i (name ∷ names) olds news ho hn =
    let old = value_at-some olds i (i + length (name ∷ names)) (omega arith) ho in
    let new = value_at-some news i (i + length (name ∷ names)) (omega arith) hn in
    let rest = property_changes-some (suc i) names olds news (ground arith) (ground arith) in
    (
      record { name = name; old_value = old.0; new_value = new.0 } ∷ rest.0,
      property_changes_cons i name names olds news old.0 new.0 rest.0 old.1 new.1 rest.1,
    )

values_of-some {ℓ} :
    {V : Type ℓ} (value : Bytes → V) (o : Option (List Bytes)) (vs : List V)
    → values_of value o ≡ some vs
    → (names : List Bytes) × (o ≡ some names) × (length vs ≡ length names)
unfolding values_of
values_of-some value none vs h = cc
values_of-some value (some names) vs h = (names, refl, ground (arith, length-map names value))

module _ {ℓ κ} {V : Type ℓ} {Error : Type κ} where
  -- Where there are old values there is a name for each of them.
  abbrev pub Inv : Wrapper V Error → Type ℓ
  Inv s =
      (vs : List V)
      → s.old_values ≡ some vs
      → (names : List Bytes) × (s.property_names ≡ some names) × (length vs ≡ length names)

  forward_change-some :
      (s : Wrapper V Error) (names : List Bytes) (value : Bytes → V)
      → Inv s
      → s.property_names ≡ some names
      → (oc : ObjectChange V Error) × (forward_change names
            (or_empty s.old_values)
            (map value names)
          ≡ some oc)
  unfolding forward_change or_empty
  forward_change-some s names value v e =
      let olds : Covers (0 + length names) (or_empty s.old_values) =
        elim (Option-cases s.old_values) [
          | inl o ↦ inl (rw o)
          | inr (vs, o) ↦ inr (let k = v vs o in rw o (ground (arith, k)))
        ] in
      let news : Covers (0 + length names) (map value names) =
        inr (omega (arith, length-map names value)) in
      let r = property_changes-some 0 names (or_empty s.old_values) (map value names) olds news in
      (
        record { object = true; is_deleted = false; error = none; property_changes = r.0 },
        rw (forward_change, r.1),
      )

  forwarded-some :
      (s : Wrapper V Error) (value : Bytes → V)
      → Inv s
      → (t : Wrapper V Error) × (forwarded (values_of value s.property_names) s ≡ some t)
  unfolding forwarded values_of
  forwarded-some s value v = elim (Bool-cases s.deleted) [
    | inl d ↦ (deliver (forward_end none) s, simp d)
    | inr d ↦ elim (Option-cases s.property_names) [
      | inl e ↦ (s, simp (d, e))
      | inr (names, e) ↦
          let r = forward_change-some s names value v e in (deliver r.0 s, simp (d, e, r.1))
    ]
  ]

  forwarded-none : (s : Wrapper V Error) → (t : Wrapper V Error) × (forwarded none s ≡ some t)
  unfolding forwarded
  forwarded-none s = elim (Bool-cases s.deleted) [
    | inl d ↦ (deliver (forward_end none) s, simp d)
    | inr d ↦ (s, simp d)
  ]

  abbrev closed : Option (Wrapper V Error) → Option (Wrapper V Error)
  closed o = elim o [
    | none ↦ none
    | some t ↦ some (record t { property_names = none; old_values = none })
  ]

module _ {ℓ κ ι} {Obj : Type ℓ} {V : Type κ} {Error : Type ι} (monostate : V)
    (column_key : Bytes → ℕ) (p : Property Obj V) (ps : List (Property Obj V)) where
  populate_properties-Inv :
      (c : ChangeSet) (s : Wrapper V Error)
      → Inv s
      → Inv (populate_properties monostate column_key p ps c s)
  unfolding populate_properties
  populate_properties-Inv c s v = ground (arith, v)

  pub read_values_empty :
      (o : Obj) (c : ChangeSet) (s : Wrapper V Error)
      → c.empty ≡ true
      → read_values monostate column_key p ps o c s ≡ (s, none)
  unfolding read_values
  read_values_empty o c s e = simp e

  pub read_values_full :
      (o : Obj) (c : ChangeSet) (s : Wrapper V Error)
      → c.empty ≡ false
      → read_values monostate column_key p ps o c s ≡ (
        populate_properties monostate column_key p ps c s,
        values_of
            (value_of monostate p ps o)
            (populate_properties monostate column_key p ps c s).property_names,
      )
  unfolding read_values
  read_values_full o c s e = simp e

  before-Inv :
      (o : Obj) (c : ChangeSet) (s : Wrapper V Error)
      → Inv s
      → Inv (before monostate column_key p ps o c s)
  unfolding before
  before-Inv o c s v = elim (Bool-cases c.empty) [
    | inl e ↦ rw (before, read_values_empty o c s e) (λ vs h. cc)
    | inr e ↦ rw (before, read_values_full o c s e) (λ vs h. values_of-some _ _ vs h)
  ]

  pub after_of :
      (o : Obj) (c : ChangeSet) (s : Wrapper V Error) (r : Wrapper V Error × Option (List V))
      (t : Wrapper V Error)
      → read_values monostate column_key p ps o c s ≡ r
      → forwarded r.1 r.0 ≡ some t
      → after monostate column_key p ps o c s
        ≡ some (record t { property_names = none; old_values = none })
  unfolding after
  after_of o c s r t e f =
      ap (λ (q : Wrapper V Error × Option (List V)). closed (forwarded q.1 q.0)) e ∙ ap closed f

  after-some :
      (o : Obj) (c : ChangeSet) (s : Wrapper V Error)
      → Inv s
      → (t : Wrapper V Error) × (after monostate column_key p ps o c s ≡ some t) × Inv t
  unfolding after
  after-some o c s v = elim (Bool-cases c.empty) [
    | inl e ↦
        let r = forwarded-none s in
        (
          record r.0 { property_names = none; old_values = none },
          after_of o c s _ r.0 (read_values_empty o c s e) r.1,
          λ vs h. cc,
        )
    | inr e ↦
        let r =
          forwarded-some (populate_properties monostate column_key p ps c s)
            (value_of monostate p ps o) (populate_properties-Inv c s v) in
        (
          record r.0 { property_names = none; old_values = none },
          after_of o c s _ r.0 (read_values_full o c s e) r.1,
          λ vs h. cc,
        )
  ]

  step-some :
      (e : Event Obj Error) (s : Wrapper V Error)
      → Inv s
      → (t : Wrapper V Error) × (step monostate column_key p ps e s ≡ some t) × Inv t
  unfolding step error deliver
  step-some (befores o c) s v = (before monostate column_key p ps o c s, refl, before-Inv o c s v)
  step-some (afters o c) s v = after-some o c s v
  step-some (errors e) s v = (error e s, refl, v)

  -- In every sequence of calls, also when those before and after a change do not alternate, each
  -- call returns: no optional is read while it is empty and no vector outside its bounds. The old
  -- values always fit the names.
  pub run-Inv-some :
      (es : List (Event Obj Error)) (s : Wrapper V Error)
      → Inv s
      → (t : Wrapper V Error) × (run monostate column_key p ps es s ≡ some t) × Inv t
  unfolding run
  run-Inv-some [] s v = (s, refl, v)
  run-Inv-some (e ∷ es) s v =
      let r = step-some e s v in let q = run-Inv-some es r.0 r.2 in (q.0, rw (run, r.1, q.1), q.2)
