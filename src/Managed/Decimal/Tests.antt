-- ===== src/Managed/Decimal/Tests.antt =====
-- The theorems about managed decimals at concrete columns.
use realm_cpp.Prelude.{leb, not, true, ℕ, ◌+◌, ◌-◌, ◌*◌, ◌/◌, ◌==◌, ltb}
use realm_cpp.Managed.{Arithmetic}

abbrev whole : Arithmetic ℕ
whole = record {
  add = λ x y. x + y;
  subtract = λ x y. x - y;
  multiply = λ x y. x * y;
  divide = λ x y. x / y;
  add_defined = λ x y. true;
  subtract_defined = λ x y. leb y x;
  multiply_defined = λ x y. true;
  divide_defined = λ x y. not (y == 0);
  one = 1;
  equals = λ x y. x == y;
  is_less = λ x y. ltb x y;
}

-- Columns that all hold 7.
abbrev sevens : ℕ → ℕ
sevens k = 7
