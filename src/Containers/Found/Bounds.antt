-- ===== src/Containers/Found/Bounds.antt =====
-- include/cpprealm/results.hpp: which indices the results of a query accept.
use realm_cpp.Prelude.{
  ℕ, zero, suc, inl, inr, [], ◌∷◌, ◌≤◌, ◌<◌, ◌≡◌, refl, ap, ◌∙◌, sym, List, none, some, length,
  get_elem?, map, leb, if◌then◌else◌, arith, Bool-cases, length-map,
}
use realm_cpp.Containers.{Outcome, returned, thrown, noexcept, called}
use realm_cpp.Containers.Iteration.{Presents}
use realm_cpp.Containers.Vector.Memory.{get_elem?-map}
use realm_cpp.Containers.Found.{
  CoreResults, at_primitive, at_mixed, at_enum, at_object, primitive_results, mixed_results,
  enum_results, object_results,
}
use mathlib.Core.Option

-- realm-core reads every index below the size; of another index nothing is known.
pub record CoreResultsLaws {ℓ κ} {R : Type ℓ} {U : Type κ} (core : CoreResults R U)
    : Type (ℓ ⊔ κ) where
  pub view : R → List U
  pub size_view : (r : R) → core.size r ≡ length (view r)
  pub get_view : (r : R) (i : ℕ) → i < core.size r → core.get r i ≡ get_elem? (view r) i

module _ {ℓ} {A : Type ℓ} where
  get_elem?_beyond : (xs : List A) (i : ℕ) → length xs ≤ i → get_elem? xs i ≡ none
  get_elem?_beyond [] i h = refl
  get_elem?_beyond (x ∷ xs) zero h = absurd (omega arith)
  get_elem?_beyond (x ∷ xs) (suc i) h = get_elem?_beyond xs i (omega arith)

  get_elem?_within : (xs : List A) (i : ℕ) (a : A) → get_elem? xs i ≡ some a → i < length xs
  get_elem?_within [] i a e = cc
  get_elem?_within (x ∷ xs) zero a e = omega arith
  get_elem?_within (x ∷ xs) (suc i) a e = omega (arith, get_elem?_within xs i a e)

module _ {ℓ κ ι} {R : Type ℓ} {U : Type κ} {T : Type ι} (core : CoreResults R U)
    (laws : CoreResultsLaws core) (convert : U → T) where
  open laws use {view, size_view, get_view}

  -- What the test of the index makes of a read.
  tested : ℕ → R → Outcome T
  tested i r = if leb (core.size r) i then thrown else called (Option.map convert (core.get r i))

  tested-view : (i : ℕ) (r : R) → tested i r ≡ called (get_elem? (map convert (view r)) i)
  unfolding tested called
  tested-view i r = elim (Bool-cases (leb (core.size r) i)) [
    | inl e ↦
        rw
          (
            tested,
            e,
            get_elem?_beyond (map convert (view r)) i
                (ground (arith, size_view r, length-map (view r) convert)),
          )
          refl
    | inr e ↦
        let h : i < core.size r = ground arith in
        rw (tested, e)
          (ap (λ o. called (Option.map convert o)) (get_view r i h)
            ∙ ap called (sym (get_elem?-map convert (view r) i)))
  ]

  convert-view :
      (i : ℕ) (r : R) (t : T)
      → get_elem? (map convert (view r)) i ≡ some t
      → Option.map convert (core.get r i) ≡ some t
  convert-view i r t e =
      let h = get_elem?_within (map convert (view r)) i t e in
      ap (Option.map convert)
        (get_view r i (omega (arith, size_view r, length-map (view r) convert, h)))
      ∙ sym (get_elem?-map convert (view r) i)
      ∙ e

  -- What `operator[]` gives at an index.
  abbrev pub Gives : (ℕ → R → Outcome T) → R → Type ι
  Gives f r = (i : ℕ) → f i r ≡ called (get_elem? (map convert (view r)) i)

  count-view : (r : R) → core.size r ≡ length (map convert (view r))
  count-view r = size_view r ∙ sym (length-map (view r) convert)

  noexcept-Gives :
      (f : ℕ → R → Outcome T) (r : R)
      → Gives f r
      → (i : ℕ) (t : T) → get_elem? (map convert (view r)) i ≡ some t
      → noexcept (f i r) ≡ returned t
  unfolding noexcept called
  noexcept-Gives f r g i t e = ap noexcept (g i ∙ ap called e)

  -- For each of the four kinds of type `operator[]` returns the value of every index below the size
  -- and throws for every other, and the iterators present the same values.
  pub results-Presents :
      (r : R)
      → (Gives (at_primitive core convert) r
          × Presents (primitive_results core convert) r (map convert (view r)))
        × (Gives (at_mixed core convert) r
            × Presents (mixed_results core convert) r (map convert (view r)))
        × (Gives (at_enum core convert) r
            × Presents (enum_results core convert) r (map convert (view r)))
        × (Gives (at_object core convert) r
            × Presents (object_results core convert) r (map convert (view r)))
  unfolding tested at_primitive at_mixed at_enum at_object primitive_results mixed_results
      enum_results object_results noexcept called
  results-Presents r =
      let g : Gives tested r = λ i. tested-view i r in
      let p : Presents (primitive_results core convert) r (map convert (view r)) =
        (count-view r, noexcept-Gives tested r g) in
      (
        (g, p),
        (g, p),
        (g, p),
        (g, (count-view r, λ i t e. ap (λ o. noexcept (called o)) (convert-view i r t e))),
      )
