-- ===== src/Mixed/Tests.antt =====
-- The theorems about mixed values at a concrete program.
use realm_cpp.Prelude.{ℕ, ◌≡◌, refl, List, [], ◌∷◌, none}
use realm_cpp.Prelude.Bytes.{codes}
use realm_cpp.Mixed.{scalar, text, binary, null, to_core}
use realm_cpp.Mixed.Program.{
  Statement, constructs, assigns, moves, run, run-Reads, intended, intended_all,
}

-- The variable 0 is a text that the variable 1, before a number, takes over; then 2 is moved from 1.
abbrev script : List (Statement ℕ)
script =
    constructs 0 (text (codes "ab"))
    ∷ constructs 1 (scalar 7)
    ∷ assigns 1 0
    ∷ constructs 0 (binary (codes "c"))
    ∷ moves (codes "?") 2 1
    ∷ []

run-Reads_example :
    to_core (run script (λ x. record { m_owned_string = []; m_owned_data = []; m_mixed = null }) 2)
    ≡ text (codes "ab")
unfolding intended_all intended
run-Reads_example =
    run-Reads script (λ x. none)
      (λ x. record { m_owned_string = []; m_owned_data = []; m_mixed = null }) (λ x v e. cc) 2
      (text (codes "ab")) refl
