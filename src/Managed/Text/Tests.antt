-- ===== src/Managed/Text/Tests.antt =====
-- The theorems about managed strings at concrete columns.
use realm_cpp.Prelude.{
  ℕ, ◌≡◌, refl, List, [], ◌∷◌, some, ◌==◌, Bool-cases, subst, sym, ==_iff, inl, inr, arith,
}
use realm_cpp.Prelude.Bytes.{Bytes, codes}
use realm_cpp.Managed.Text.{
  Texts, Step, pops_back, pushes_back, assigns_back, appends, run, without_last, with_char,
}
use realm_cpp.Managed.Text.Steps.{run-run_memory, run_memory, in_memory, Returns}

abbrev texts : Texts
texts k = codes "abc"

abbrev script : List (ℕ × Step)
script =
    (1, pops_back) ∷ (2, appends (codes "d")) ∷ (1, assigns_back b'x') ∷ (1, pushes_back b'y') ∷ []

script-Returns : Returns script texts
unfolding run_memory in_memory without_last with_char
script-Returns k = elim (Bool-cases (k == 1)) [
  | inl t ↦
      subst (λ (j : ℕ). (v : Bytes) × (run_memory j script (texts j) ≡ some v))
        (sym ((==_iff k 1).0 t)) (codes "axy", refl)
  | inr t ↦ elim (Bool-cases (k == 2)) [
    | inl u ↦
        subst (λ (j : ℕ). (v : Bytes) × (run_memory j script (texts j) ≡ some v))
          (sym ((==_iff k 2).0 u)) (codes "abcd", refl)
    | inr u ↦ (codes "abc", ground (arith, t, u))
  ]
]

run-run_memory_example :
    (next : Texts) × (run script texts ≡ some next)
    × ((k : ℕ) → run_memory k script (texts k) ≡ some (next k))
run-run_memory_example = run-run_memory script texts script-Returns
