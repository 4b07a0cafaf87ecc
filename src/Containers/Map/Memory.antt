-- ===== src/Containers/Map/Memory.antt =====
-- include/cpprealm/managed_dictionary.hpp: the std::map that `detach` fills, entry after entry.
use realm_cpp.Prelude.{
  ℕ, zero, suc, inl, inr, ◌≡◌, refl, ap, ◌∙◌, sym, subst, List, [], ◌∷◌, true, false, Option, none,
  some, get_elem?, arith, Bool-cases, Option-cases, map,
}
use realm_cpp.Prelude.Bytes.{Bytes, bytes_eq, bytes_eq_iff}
use realm_cpp.Containers.Core.{lookup}
use realm_cpp.Containers.Iteration.{visit}
use realm_cpp.Containers.Map.{Entries, put}
use mathlib.Core.Option

-- No two entries of a list have one key.
unfoldable pub Distinct {ℓ} : {T : Type ℓ} → List (Bytes × T) → Type ℓ
Distinct [] = Unit
Distinct (e ∷ es) = (lookup e.0 es ≡ none) × Distinct es

module _ {ℓ} {T : Type ℓ} where
  lookup-index :
      (key : Bytes) (es : List (Bytes × T)) (v : T)
      → lookup key es ≡ some v
      → (i : ℕ) × (p : Bytes × T) × (get_elem? es i ≡ some p) × (p.0 ≡ key)
  unfolding lookup
  lookup-index key [] v e = cc
  lookup-index key (p ∷ es) v e = elim (Bool-cases (bytes_eq p.0 key)) [
    | inl b ↦ (zero, p, refl, (bytes_eq_iff p.0 key).0 b)
    | inr b ↦
        let r = lookup-index key es v (sym (rw (lookup, b) refl) ∙ e) in (suc r.0, r.1, r.2, r.3)
  ]

  pub get_elem?-Distinct :
      (es : List (Bytes × T))
      → ((i j : ℕ) (p q : Bytes × T)
          → get_elem? es i ≡ some p
          → get_elem? es j ≡ some q
          → p.0 ≡ q.0
          → i ≡ j)
      → Distinct es
  unfolding Distinct
  get_elem?-Distinct [] d = tt
  get_elem?-Distinct (e ∷ es) d = (
    (elim (Option-cases (lookup e.0 es)) [
      | inl n ↦ n
      | inr (v, s) ↦
          let r = lookup-index e.0 es v s in
          let c = d zero (suc r.0) e r.1 refl r.2 (sym r.3) in absurd (omega (arith, c))
    ]),
    get_elem?-Distinct es
        (λ i j p q f g h. let c = d (suc i) (suc j) p q f g h in omega (arith, c)),
  )

  put-here :
      (key : Bytes) (e : Bytes × T) (m : Entries T)
      → bytes_eq e.0 key ≡ true
      → put e m key ≡ some e.1
  unfolding put
  put-here key e m b = rw (put, b) refl

  put-there :
      (key : Bytes) (e : Bytes × T) (m : Entries T) → bytes_eq e.0 key ≡ false → put e m key ≡ m key
  unfolding put
  put-there key e m b = rw (put, b) refl

  -- An entry's value, or the one that a map has.
  unfoldable pub or_held : Option T → Option T → Option T
  or_held none held = held
  or_held (some v) held = some v

  pub lookup-here :
      (key : Bytes) (e : Bytes × T) (es : List (Bytes × T))
      → bytes_eq e.0 key ≡ true
      → lookup key (e ∷ es) ≡ some e.1
  unfolding lookup
  lookup-here key e es b = rw (lookup, b) refl

  pub lookup-there :
      (key : Bytes) (e : Bytes × T) (es : List (Bytes × T))
      → bytes_eq e.0 key ≡ false
      → lookup key (e ∷ es) ≡ lookup key es
  unfolding lookup
  lookup-there key e es b = rw (lookup, b) refl

  -- A map that has been given every entry has for each key the entry's value.
  pub visit-put :
      (key : Bytes) (es : List (Bytes × T)) (m : Entries T)
      → Distinct es
      → visit put es m key ≡ or_held (lookup key es) (m key)
  unfolding visit or_held lookup Distinct
  visit-put key [] m d = refl
  visit-put key (e ∷ es) m d = elim (Bool-cases (bytes_eq e.0 key)) [
    | inl b ↦
        let gone : lookup key es ≡ none =
          subst (λ k. lookup k es ≡ none) ((bytes_eq_iff e.0 key).0 b) d.0 in
        visit-put key es (put e m) d.1
        ∙ ap (λ o. or_held o (put e m key)) gone
        ∙ put-here key e m b
        ∙ sym (ap (λ o. or_held o (m key)) (lookup-here key e es b))
    | inr b ↦
        visit-put key es (put e m) d.1
        ∙ ap (or_held (lookup key es)) (put-there key e m b)
        ∙ sym (ap (λ o. or_held o (m key)) (lookup-there key e es b))
  ]

module _ {ℓ κ} {A : Type ℓ} {B : Type κ} (convert : A → B) where
  pub lookup-map :
      (key : Bytes) (es : List (Bytes × A))
      → lookup key (map (λ p. (p.0, convert p.1)) es) ≡ Option.map convert (lookup key es)
  unfolding lookup
  lookup-map key [] = refl
  lookup-map key (e ∷ es) = elim (Bool-cases (bytes_eq e.0 key)) [
    | inl b ↦ rw (lookup, b) refl
    | inr b ↦ rw (lookup, b) (lookup-map key es)
  ]

  pub Distinct-map :
      (es : List (Bytes × A)) → Distinct es → Distinct (map (λ p. (p.0, convert p.1)) es)
  unfolding Distinct
  Distinct-map [] d = tt
  Distinct-map (e ∷ es) d = (lookup-map e.0 es ∙ ap (Option.map convert) d.0, Distinct-map es d.1)
