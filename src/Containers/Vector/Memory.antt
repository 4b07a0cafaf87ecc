-- ===== src/Containers/Vector/Memory.antt =====
-- include/cpprealm/managed_list.hpp: a vector in memory, to compare managed<std::vector<T>> with.
use realm_cpp.Prelude.{
  ℕ, zero, suc, ◌+◌, ◌-◌, ◌%◌, ◌^◌, ◌≤◌, ◌<◌, ◌≡◌, refl, ap, ◌∙◌, subst, List, [], ◌∷◌, ◌++◌, map,
  Bool, true, false, Option, none, some, length, get_elem?, length-append, arith,
}
use realm_cpp.Containers.Core.{remove_at, replace_at}
use realm_cpp.Containers.Vector.{VectorCall, push_back, pop_back, clear, erase, set}
use mathlib.Core.Option

module _ {ℓ} {A : Type ℓ} where
  unfoldable pub without_last : List A → Option (List A)
  without_last [] = none
  without_last (x ∷ []) = some []
  without_last (x ∷ y ∷ ys) = Option.map (λ r. x ∷ r) (without_last (y ∷ ys))

  -- The same operations of a vector in memory that tests its indices; `none` is an exception.
  unfoldable pub on_vector : VectorCall A → List A → Option (List A)
  on_vector (push_back a) xs = some (xs ++ a ∷ [])
  on_vector pop_back xs = without_last xs
  on_vector clear xs = some []
  on_vector (erase i) xs = remove_at i xs
  on_vector (set i a) xs = replace_at i a xs

  unfoldable pub on_vector_all : List (VectorCall A) → List A → List A × List Bool
  on_vector_all [] xs = (xs, [])
  on_vector_all (c ∷ cs) xs = elim (on_vector c xs) [
    | none ↦ let r = on_vector_all cs xs in (r.0, true ∷ r.1)
    | some next ↦ let r = on_vector_all cs next in (r.0, false ∷ r.1)
  ]

  remove_at-without_last :
      (xs : List A) (i : ℕ) → i + 1 ≡ length xs → remove_at i xs ≡ without_last xs
  unfolding remove_at without_last
  remove_at-without_last [] i e = refl
  remove_at-without_last (x ∷ []) zero e = refl
  remove_at-without_last (x ∷ []) (suc i) e = absurd (omega arith)
  remove_at-without_last (x ∷ y ∷ ys) zero e = absurd (omega arith)
  remove_at-without_last (x ∷ y ∷ ys) (suc i) e =
      ap (Option.map (λ r. x ∷ r)) (remove_at-without_last (y ∷ ys) i (omega arith))

  remove_at_beyond : (xs : List A) (i : ℕ) → length xs ≤ i → remove_at i xs ≡ none
  unfolding remove_at
  remove_at_beyond [] i h = refl
  remove_at_beyond (x ∷ xs) zero h = absurd (omega arith)
  remove_at_beyond (x ∷ xs) (suc i) h =
      ap (Option.map (λ r. x ∷ r)) (remove_at_beyond xs i (omega arith))

  -- `size() - 1` wraps for an empty vector.
  pub remove_at_last :
      (xs : List A)
      → length xs < 2 ^ 64
      → remove_at ((length xs + (2 ^ 64 - 1)) % 2 ^ 64) xs ≡ without_last xs
  unfolding without_last
  remove_at_last [] h = remove_at_beyond [] _ (omega arith)
  remove_at_last (x ∷ xs) h = remove_at-without_last (x ∷ xs) _ (omega arith)

module _ {ℓ κ} {A : Type ℓ} {B : Type κ} (f : A → B) where
  cons-map :
      (x : A) (o : Option (List A))
      → Option.map (map f) (Option.map (λ r. x ∷ r) o)
        ≡ Option.map (λ r. f x ∷ r) (Option.map (map f) o)
  cons-map x none = refl
  cons-map x (some r) = refl

  pub remove_at-map :
      (i : ℕ) (xs : List A) → Option.map (map f) (remove_at i xs) ≡ remove_at i (map f xs)
  unfolding remove_at
  remove_at-map i [] = refl
  remove_at-map zero (x ∷ xs) = refl
  remove_at-map (suc i) (x ∷ xs) =
      cons-map x (remove_at i xs) ∙ ap (Option.map (λ r. f x ∷ r)) (remove_at-map i xs)

  pub replace_at-map :
      (i : ℕ) (a : A) (xs : List A)
      → Option.map (map f) (replace_at i a xs) ≡ replace_at i (f a) (map f xs)
  unfolding replace_at
  replace_at-map i a [] = refl
  replace_at-map zero a (x ∷ xs) = refl
  replace_at-map (suc i) a (x ∷ xs) =
      cons-map x (replace_at i a xs) ∙ ap (Option.map (λ r. f x ∷ r)) (replace_at-map i a xs)

  pub get_elem?-map : (xs : List A) (i : ℕ) → get_elem? (map f xs) i ≡ Option.map f (get_elem? xs i)
  get_elem?-map [] i = refl
  get_elem?-map (x ∷ xs) zero = refl
  get_elem?-map (x ∷ xs) (suc i) = get_elem?-map xs i

module _ {ℓ} {A : Type ℓ} where
  AtMost : ℕ → Option (List A) → Type 0
  AtMost n none = Unit
  AtMost n (some ys) = length ys ≤ n

  AtMost-cons :
      (x : A) (n : ℕ) (o : Option (List A))
      → AtMost n o
      → AtMost (suc n) (Option.map (λ r. x ∷ r) o)
  unfolding AtMost
  AtMost-cons x n none h = tt
  AtMost-cons x n (some ys) h = omega arith

  remove_at-AtMost : (i : ℕ) (xs : List A) → AtMost (length xs) (remove_at i xs)
  unfolding remove_at AtMost
  remove_at-AtMost i [] = tt
  remove_at-AtMost zero (x ∷ xs) = omega arith
  remove_at-AtMost (suc i) (x ∷ xs) = AtMost-cons x _ _ (remove_at-AtMost i xs)

  replace_at-AtMost : (i : ℕ) (a : A) (xs : List A) → AtMost (length xs) (replace_at i a xs)
  unfolding replace_at AtMost
  replace_at-AtMost i a [] = tt
  replace_at-AtMost zero a (x ∷ xs) = omega arith
  replace_at-AtMost (suc i) a (x ∷ xs) = AtMost-cons x _ _ (replace_at-AtMost i a xs)

  without_last-AtMost : (xs : List A) → AtMost (length xs) (without_last xs)
  unfolding without_last AtMost
  without_last-AtMost [] = tt
  without_last-AtMost (x ∷ []) = omega arith
  without_last-AtMost (x ∷ y ∷ ys) = AtMost-cons x _ _ (without_last-AtMost (y ∷ ys))

  AtMost-suc : (n : ℕ) (o : Option (List A)) → AtMost n o → AtMost (suc n) o
  unfolding AtMost
  AtMost-suc n none h = tt
  AtMost-suc n (some ys) h = omega arith

  AtMost-on_vector : (c : VectorCall A) (xs : List A) → AtMost (suc (length xs)) (on_vector c xs)
  unfolding on_vector AtMost
  AtMost-on_vector (push_back a) xs = omega (arith, length-append xs (a ∷ []))
  AtMost-on_vector pop_back xs = AtMost-suc _ _ (without_last-AtMost xs)
  AtMost-on_vector clear xs = omega arith
  AtMost-on_vector (erase i) xs = AtMost-suc _ _ (remove_at-AtMost i xs)
  AtMost-on_vector (set i a) xs = AtMost-suc _ _ (replace_at-AtMost i a xs)

  -- A call makes a vector longer by one value at most.
  pub length-on_vector :
      (c : VectorCall A) (xs ys : List A) → on_vector c xs ≡ some ys → length ys ≤ suc (length xs)
  unfolding AtMost
  length-on_vector c xs ys e = subst (AtMost (suc (length xs))) e (AtMost-on_vector c xs)
