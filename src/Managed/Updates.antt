-- ===== src/Managed/Updates.antt =====
-- include/cpprealm/managed_numeric.hpp: what a sequence of arithmetic operators leaves in the columns.
use realm_cpp.Prelude.{
  ℕ, ◌≡◌, refl, ap, ◌∙◌, inl, inr, List, [], ◌∷◌, Option, none, some, true, ◌==◌, if◌then◌else◌,
  Bool-cases, Option-cases, ==_iff,
}
use realm_cpp.Prelude.Attempts.{completed}
use realm_cpp.Managed.{
  Arithmetic, Columns, store, Update, updated, update, update_all, is_defined, plus_assign,
  minus_assign, times_assign, times, over, increment, decrement,
}

module _ {ℓ} {T : Type ℓ} (a : Arithmetic T) where
  -- What each operator makes of a value.
  unfoldable pub effect : Update T → T → T
  effect (plus_assign o) v = a.add v o
  effect increment v = a.add v a.one
  effect (minus_assign o) v = a.subtract v o
  effect decrement v = a.subtract v a.one
  effect (times_assign o) v = a.multiply v o
  effect (times o) v = a.multiply v o
  effect (over o) v = a.divide v o

  updated-effect : (u : Update T) (v : T) → updated a u v ≡ effect u v
  unfolding updated effect
  updated-effect (plus_assign o) v = refl
  updated-effect (minus_assign o) v = refl
  updated-effect (times_assign o) v = refl
  updated-effect (times o) v = refl
  updated-effect (over o) v = refl
  updated-effect increment v = refl
  updated-effect decrement v = refl

  -- The operator is defined on a value.
  unfoldable pub IsDefined : Update T → T → Type 0
  IsDefined (plus_assign o) v = a.add_defined v o ≡ true
  IsDefined increment v = a.add_defined v a.one ≡ true
  IsDefined (minus_assign o) v = a.subtract_defined v o ≡ true
  IsDefined decrement v = a.subtract_defined v a.one ≡ true
  IsDefined (times_assign o) v = a.multiply_defined v o ≡ true
  IsDefined (times o) v = a.multiply_defined v o ≡ true
  IsDefined (over o) v = a.divide_defined v o ≡ true

  is_defined-IsDefined : (u : Update T) (v : T) → IsDefined u v → is_defined a u v ≡ true
  unfolding is_defined IsDefined
  is_defined-IsDefined (plus_assign o) v d = d
  is_defined-IsDefined (minus_assign o) v d = d
  is_defined-IsDefined (times_assign o) v d = d
  is_defined-IsDefined (times o) v d = d
  is_defined-IsDefined (over o) v d = d
  is_defined-IsDefined increment v d = d
  is_defined-IsDefined decrement v d = d

  -- A value after those of the updates that are of its column.
  unfoldable pub after_updates : ℕ → List (ℕ × Update T) → T → T
  after_updates k [] v = v
  after_updates k ((key, u) ∷ us) v = after_updates k us (if k == key then effect u v else v)

  -- Each operator finds a value in its column when its turn comes, on which it is defined.
  unfoldable pub IsRunnable : List (ℕ × Update T) → Columns T → Type ℓ
  IsRunnable [] obj = Unit
  IsRunnable ((key, u) ∷ us) obj =
      (v : T) × (obj key ≡ some v) × IsDefined u v × IsRunnable us (store key (effect u v) obj)

  pub after_column : ℕ → List (ℕ × Update T) → Option T → Option T
  after_column k us none = none
  after_column k us (some v) = some (after_updates k us v)

  after_column-store :
      (k key : ℕ) (u : Update T) (us : List (ℕ × Update T)) (obj : Columns T) (v : T)
      → obj key ≡ some v
      → after_column k us (store key (effect u v) obj k) ≡ after_column k ((key, u) ∷ us) (obj k)
  unfolding after_column after_updates
  after_column-store k key u us obj v e = elim (Bool-cases (k == key)) [
    | inl t ↦ rw (t, ap obj ((==_iff k key).0 t) ∙ e, t)
    | inr t ↦ elim (Option-cases (obj k)) [ inl n ↦ rw (t, n) | inr (w, n) ↦ rw (t, n, t) ]
  ]

  after_column-none : (k : ℕ) (o : Option T) → o ≡ after_column k [] o
  unfolding after_column after_updates
  after_column-none k none = refl
  after_column-none k (some v) = refl

  update-some :
      (key : ℕ) (u : Update T) (us : List (ℕ × Update T)) (obj : Columns T) (v : T)
      → obj key ≡ some v
      → IsDefined u v
      → update_all a ((key, u) ∷ us) obj ≡ update_all a us (store key (effect u v) obj)
  unfolding update_all update
  update-some key u us obj v e d =
      rw (update_all, update, e, is_defined-IsDefined u v d, updated-effect u v) refl

  -- If each operator finds a value in its column when its turn comes, and neither overflows nor
  -- divides by 0, the operators all return, and each column then holds its value after exactly
  -- the operators on it, in their order: the sum after `+=` and `++`, the difference after `-=` and
  -- `--`, the product after `*=` and `*`, the quotient after `/`. Null columns stay null.
  pub update_all-after :
      (us : List (ℕ × Update T)) (obj : Columns T)
      → IsRunnable us obj
      → (next : Columns T) × (update_all a us obj ≡ completed next)
        × ((k : ℕ) → next k ≡ after_column k us (obj k))
  unfolding update_all IsRunnable
  update_all-after [] obj r = (obj, refl, λ k. after_column-none k (obj k))
  update_all-after ((key, u) ∷ us) obj (v, e, d, rest) =
      let r = update_all-after us (store key (effect u v) obj) rest in
      (
        r.0,
        update-some key u us obj v e d ∙ r.1,
        λ k. r.2 k ∙ after_column-store k key u us obj v e,
      )
