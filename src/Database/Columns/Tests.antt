-- ===== src/Database/Columns/Tests.antt =====
-- The theorem about set_list_values at a concrete list.
use realm_cpp.Prelude.{
  ℕ, zero, suc, ◌+◌, ◌≡◌, refl, ap, ◌∙◌, List, [], ◌∷◌, ◌++◌, Option, none, some, length,
}
use realm_cpp.Containers.Small.{numbers, numbers-Laws}
use realm_cpp.Database.Columns.{CoreColumn, ListValues, optionals, set_list_values}
use realm_cpp.Database.Columns.Stored.{
  CoreColumnLaws, stored_values, kept_in_front, kept_behind, set_list_values_lem,
}
use mathlib.Core.Option

abbrev put_in : ℕ → ℕ → List ℕ → Option (List ℕ)
put_in zero u l = some (u ∷ l)
put_in (suc i) u [] = none
put_in (suc i) u (x ∷ l) = Option.map (λ r. x ∷ r) (put_in i u l)

put_in-length :
    (u : ℕ) (front back : List ℕ)
    → put_in (length front) u (front ++ back) ≡ some (front ++ (u ∷ back))
put_in-length u [] back = refl
put_in-length u (x ∷ front) back = ap (Option.map (λ r. x ∷ r)) (put_in-length u front back)

-- Zero stands for null.
abbrev small_column : CoreColumn (List ℕ) ℕ
small_column = record { insert = put_in; null = 0; set_all = λ us l. us }

abbrev small_column-Laws : CoreColumnLaws numbers-Laws small_column
small_column-Laws = record {
  inserted = λ u l front back e.
      (front ++ (u ∷ back), ap (put_in (length front) u) e ∙ put_in-length u front back, refl);
  replaced = λ us l. refl;
}

abbrev doubled : ℕ → ℕ
doubled n = n + n

abbrev new_values : ListValues ℕ
new_values = optionals (some 3 ∷ none ∷ [])

set_list_values_lem_example :
    (next : List ℕ) × (set_list_values numbers small_column doubled new_values (7 ∷ 8 ∷ [])
      ≡ some next)
    × (next
        ≡ kept_in_front numbers numbers-Laws small_column small_column-Laws doubled new_values
            (7 ∷ 8 ∷ [])
          ++ (stored_values numbers numbers-Laws small_column small_column-Laws doubled new_values
              ++ kept_behind numbers numbers-Laws small_column small_column-Laws doubled new_values
                  (7 ∷ 8 ∷ [])))
set_list_values_lem_example =
    set_list_values_lem numbers numbers-Laws small_column small_column-Laws doubled new_values
      (7 ∷ 8 ∷ [])
