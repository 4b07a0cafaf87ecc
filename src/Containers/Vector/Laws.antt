-- ===== src/Containers/Vector/Laws.antt =====
-- include/cpprealm/managed_list.hpp: managed<std::vector<T>> as a vector whose accesses are tested.
use realm_cpp.Prelude.{
  ◌⊎◌, inl, inr, ℕ, zero, suc, ◌+◌, ◌-◌, ◌%◌, ◌^◌, ◌<◌, ◌≡◌, refl, ap, ◌∙◌, sym, subst, List, [],
  ◌∷◌, ◌++◌, map, append-nil, append_assoc, true, false, Option, none, some, ◌==◌, length,
  get_elem?, length-map, arith, Bool-cases,
}
use realm_cpp.Containers.{returned, noexcept, called}
use realm_cpp.Containers.Core.{CoreList, CoreListLaws, remove_at, replace_at}
use realm_cpp.Containers.Iteration.{Presents, drop, drop-some, drop-length}
use realm_cpp.Containers.Vector.{
  VectorCall, push_back, pop_back, clear, erase, set, at, primitive_vector, detach_rest, detach,
  call, call_all,
}
use realm_cpp.Containers.Vector.Memory.{
  on_vector, on_vector_all, remove_at_last, remove_at-map, replace_at-map, get_elem?-map,
  length-on_vector,
}
use mathlib.Core.Option
use mathlib.Core.List.{map-append}

map-compose {ℓ κ ι} :
    {A : Type ℓ} {B : Type κ} {C : Type ι} (f : A → B) (g : B → C) (o : Option A)
    → Option.map (λ a. g (f a)) o ≡ Option.map g (Option.map f o)
map-compose f g none = refl
map-compose f g (some a) = refl

module _ {ℓ κ ι} {L : Type ℓ} {U : Type κ} {T : Type ι} (core : CoreList L U)
    (laws : CoreListLaws core) (serialize : T → U) (deserialize : U → T) where
  open core use {size, get}
  open laws use {view, size_view, get_view, add_view, set_view, remove_view, remove_all_view}

  abbrev pub values : L → List T
  values l = map deserialize (view l)

  length-values : (l : L) → length (values l) ≡ size l
  length-values l = length-map (view l) deserialize ∙ sym (size_view l)

  remove-values : (i : ℕ) (l : L) → Option.map values (core.remove i l) ≡ remove_at i (values l)
  remove-values i l =
      map-compose view (map deserialize) (core.remove i l)
      ∙ ap (Option.map (map deserialize)) (remove_view i l)
      ∙ remove_at-map deserialize i (view l)

  call-values :
      ((t : T) → deserialize (serialize t) ≡ t)
      → (c : VectorCall T) (l : L) → length (values l) < 2 ^ 64
      → Option.map values (call core serialize deserialize c l) ≡ on_vector c (values l)
  unfolding call on_vector
  call-values back (push_back t) l h = ap some (
      ap (map deserialize) (add_view (serialize t) l)
      ∙ map-append deserialize (view l) (serialize t ∷ [])
      ∙ ap (λ v. values l ++ v ∷ []) (back t))
  call-values back pop_back l h =
      remove-values ((size l + (2 ^ 64 - 1)) % 2 ^ 64) l
      ∙ ap (λ n. remove_at ((n + (2 ^ 64 - 1)) % 2 ^ 64) (values l)) (sym (length-values l))
      ∙ remove_at_last (values l) h
  call-values back clear l h = ap (λ us. some (map deserialize us)) (remove_all_view l)
  call-values back (erase i) l h = remove-values i l
  call-values back (set i t) l h =
      map-compose view (map deserialize) (core.set i (serialize t) l)
      ∙ ap (Option.map (map deserialize)) (set_view i (serialize t) l)
      ∙ replace_at-map deserialize i (serialize t) (view l)
      ∙ ap (λ v. replace_at i v (values l)) (back t)

  at-values : (i : ℕ) (l : L) → at core serialize deserialize i l ≡ called (get_elem? (values l) i)
  unfolding at
  at-values i l =
      ap called
        (ap (Option.map deserialize) (get_view l i) ∙ sym (get_elem?-map deserialize (view l) i))

  pub primitive_vector-Presents :
      (l : L) → Presents (primitive_vector core serialize deserialize) l (values l)
  unfolding primitive_vector noexcept called
  primitive_vector-Presents l =
      (sym (length-values l), λ i a e. ap noexcept (at-values i l ∙ ap called e))

  detach_rest-values :
      (n i : ℕ) (l : L) (ret : List T)
      → i + n ≡ length (view l)
      → detach_rest core serialize deserialize n i l ret
        ≡ returned (ret ++ map deserialize (drop i (view l)))
  unfolding detach_rest
  detach_rest-values zero i l ret e = ap returned (
      sym (append-nil ret)
      ∙ ap (λ us. ret ++ map deserialize us)
          (sym (ap (λ n. drop n (view l)) (omega arith) ∙ drop-length (view l))))
  detach_rest-values (suc n) i l ret e =
      let d = drop-some i (view l) (omega arith) in
      rw (detach_rest, get_view l i ∙ d.1)
        (detach_rest-values n (suc i) l (ret ++ deserialize d.0 ∷ []) (omega arith)
          ∙ ap returned (
              append_assoc ret (deserialize d.0 ∷ []) (map deserialize (drop (suc i) (view l)))
              ∙ ap (λ us. ret ++ map deserialize us) (sym d.2)))

  nothing_viewed : (xs : List U) → (length xs == 0) ≡ true → xs ≡ []
  nothing_viewed [] e = refl
  nothing_viewed (x ∷ xs) e = absurd (ground arith)

  detach-values : (l : L) → detach core serialize deserialize l ≡ returned (values l)
  unfolding detach drop
  detach-values l = elim (Bool-cases (size l == 0)) [
    | inl e ↦
        rw (detach, e)
          (ap (λ us. returned (map deserialize us))
            (sym (nothing_viewed (view l) (ap (λ n. n == 0) (sym (size_view l)) ∙ e))))
    | inr e ↦ rw (detach, e) (detach_rest-values (size l) 0 l [] (omega (arith, size_view l)))
  ]

  some-of :
      (o : Option L) (s : Option (List T))
      → Option.map values o ≡ s
      → (o ≡ none × s ≡ none) ⊎ ((next : L) × (o ≡ some next) × (s ≡ some (values next)))
  some-of none s e = inl (refl, sym e)
  some-of (some next) s e = inr (next, refl, sym e)

  call_all-values :
      ((t : T) → deserialize (serialize t) ≡ t)
      → (cs : List (VectorCall T)) (l : L) → length (values l) + length cs < 2 ^ 64
      → (values (call_all core serialize deserialize cs l).0 ≡ (on_vector_all cs (values l)).0)
        × ((call_all core serialize deserialize cs l).1 ≡ (on_vector_all cs (values l)).1)
  unfolding call_all on_vector_all
  call_all-values back [] l h = (refl, refl)
  call_all-values back (c ∷ cs) l h = elim (some-of _ _ (call-values back c l (omega arith))) [
    | inl (e, f) ↦
        let r = call_all-values back cs l (omega arith) in
        (
          rw (call_all, on_vector_all, e, f) r.0,
          rw (call_all, on_vector_all, e, f) (ap (λ t. true ∷ t) r.1),
        )
    | inr (next, e, f) ↦
        let r =
          call_all-values back cs next
            (omega (arith, length-on_vector c (values l) (values next) f)) in
        (
          rw (call_all, on_vector_all, e, f) r.0,
          rw (call_all, on_vector_all, e, f) (ap (λ t. false ∷ t) r.1),
        )
  ]

  -- Whatever operations are called, those that throw are the ones that a vector with tested indices
  -- refuses (an empty one refuses `pop_back`), and they change nothing; after all of them `detach`,
  -- `operator[]` at every index and the iterators give exactly what that vector holds. The conversion
  -- of a value must be undone by the conversion back, and the length stay below 2^64.
  pub call_all-on_vector_all :
      (back : (t : T) → deserialize (serialize t) ≡ t) (cs : List (VectorCall T)) (l : L)
      → length (values l) + length cs < 2 ^ 64
      → ((call_all core serialize deserialize cs l).1 ≡ (on_vector_all cs (values l)).1)
        × (detach core serialize deserialize (call_all core serialize deserialize cs l).0
            ≡ returned (on_vector_all cs (values l)).0)
        × ((i : ℕ)
            → at core serialize deserialize i (call_all core serialize deserialize cs l).0
              ≡ called (get_elem? (on_vector_all cs (values l)).0 i))
        × Presents
            (primitive_vector core serialize deserialize)
            (call_all core serialize deserialize cs l).0
            (on_vector_all cs (values l)).0
  call_all-on_vector_all back cs l h =
      let r = call_all-values back cs l h in
      let last = (call_all core serialize deserialize cs l).0 in
      (
        r.1,
        detach-values last ∙ ap returned r.0,
        (λ i. at-values i last ∙ ap (λ xs. called (get_elem? xs i)) r.0),
        subst (Presents (primitive_vector core serialize deserialize) last) r.0
            (primitive_vector-Presents last),
      )
