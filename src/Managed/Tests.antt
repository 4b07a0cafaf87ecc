-- ===== src/Managed/Tests.antt =====
-- The theorems about managed numbers at concrete columns.
use realm_cpp.Prelude.{
  leb, not, ℕ, ◌+◌, ◌-◌, ◌*◌, ◌/◌, ◌≡◌, refl, List, [], ◌∷◌, true, false, none, some, ◌==◌, ltb,
  arith,
}
use realm_cpp.Prelude.Attempts.{completed}
use realm_cpp.Query.{Comparison}
use realm_cpp.Query.Small.{small, small-Laws}
use realm_cpp.Managed.{
  Arithmetic, Columns, Update, plus_assign, minus_assign, times, over, increment, update_all,
  compared,
}
use realm_cpp.Managed.Updates.{update_all-after, after_column, IsRunnable, IsDefined, effect}
use realm_cpp.Managed.Comparisons.{Reads}

abbrev natural : Arithmetic ℕ
natural = record {
  add = λ x y. x + y;
  subtract = λ x y. x - y;
  multiply = λ x y. x * y;
  divide = λ x y. x / y;
  add_defined = λ x y. true;
  subtract_defined = λ x y. leb y x;
  multiply_defined = λ x y. true;
  divide_defined = λ x y. not (y == 0);
  one = 1;
  equals = λ x y. x == y;
  is_less = λ x y. ltb x y;
}

-- Column 0 is null, the others hold 5.
abbrev row : Columns ℕ
row k = elim (k == 0) [ true ↦ none | false ↦ some 5 ]

abbrev script : List (ℕ × Update ℕ)
script = (1, increment) ∷ (2, plus_assign 4) ∷ (1, times 3) ∷ (2, minus_assign 2) ∷ (2, over 3) ∷ []

update_all-after_example :
    (next : Columns ℕ) × (update_all natural script row ≡ completed next)
    × ((k : ℕ) → next k ≡ after_column natural k script (row k))
unfolding IsRunnable IsDefined effect
update_all-after_example =
    update_all-after natural script row
      (5, refl, refl, (5, refl, refl, (6, refl, refl, (9, refl, refl, (7, refl, refl, tt)))))

columns-Reads : (c : ℕ) → Reads small small-Laws natural c (λ o. o c)
unfolding compared
columns-Reads c Comparison.equal rhs o = refl
columns-Reads c Comparison.not_equal rhs o = refl
columns-Reads c Comparison.greater rhs o = refl
columns-Reads c Comparison.less rhs o = refl
columns-Reads c Comparison.greater_equal rhs o = ground arith
columns-Reads c Comparison.less_equal rhs o = ground arith
