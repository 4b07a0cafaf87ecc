-- ===== src/Managed/Decimal/Laws.antt =====
-- src/cpprealm/managed_decimal.cpp: what the operators return and what they leave in the columns.
use realm_cpp.Prelude.{
  ℕ, ◌≡◌, ◌↔◌, sym, ap, ◌⊎◌, inl, inr, true, ◌==◌, ==_refl, none, some, if◌then◌else◌, Bool-cases,
  Option-cases, arith,
}
use realm_cpp.Managed.{Arithmetic, Columns}
use realm_cpp.Managed.Decimal.{
  Operator, applied, decimal_arithmetic, decimal_assignment, optional_arithmetic,
  optional_assignment,
}

at_key {ℓ} : {T : Type ℓ} (v w : T) (key : ℕ) → (if key == key then v else w) ≡ v
at_key v w key = rw (==_refl key)

module _ {ℓ} {T : Type ℓ} (a : Arithmetic T) where
  -- `x + y` and the other binary operators write their result to the column of `x`, and no other, as
  -- `x += y` does; both operands are read before.
  pub decimal_arithmetic-decimal_assignment :
      (op : Operator) (key : ℕ) (o : T) (obj : ℕ → T)
      → (decimal_arithmetic a op key o obj
          ≡ (decimal_assignment a op key o obj key, decimal_assignment a op key o obj))
        × (decimal_assignment a op key o obj key ≡ applied a op (obj key) o)
        × ((k : ℕ) → ((k == key) ≡ true) ⊎ (decimal_assignment a op key o obj k ≡ obj k))
  unfolding decimal_arithmetic decimal_assignment
  decimal_arithmetic-decimal_assignment op key o obj = (
    ap (λ (v : T). (v, λ (k : ℕ). if k == key then applied a op (obj key) o else obj k))
        (sym (at_key (applied a op (obj key) o) (obj key) key)),
    at_key (applied a op (obj key) o) (obj key) key,
    λ k. elim (Bool-cases (k == key)) [ inl t ↦ inl t | inr t ↦ inr (rw t) ],
  )

  -- The same for optional decimals: an operator throws exactly if the column is null, and then `x + y`
  -- and `x += y` throw alike; otherwise `x + y` returns what it, like `x += y`, has stored.
  pub optional_arithmetic-optional_assignment :
      (op : Operator) (key : ℕ) (o : T) (obj : Columns T)
      → (optional_arithmetic a op key o obj ≡ elim (optional_assignment a op key o obj) [
        | none ↦ none
        | some next ↦ elim (next key) [ none ↦ none | some v ↦ some (v, next) ]
      ])
        × ((optional_assignment a op key o obj ≡ none) ↔ (obj key ≡ none))
  unfolding optional_arithmetic optional_assignment
  optional_arithmetic-optional_assignment op key o obj = elim (Option-cases (obj key)) [
    | inl n ↦ ground (arith, n)
    | inr (v, n) ↦
        (rw (optional_arithmetic, optional_assignment, n, ==_refl key), ground (arith, n))
  ]
