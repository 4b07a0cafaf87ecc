-- ===== src/Query/Tests.antt =====
-- The theorems about queries, with a small core.
use realm_cpp.Prelude.{◌≡◌, refl, [], ◌∷◌, true, none, some, ltb}
use realm_cpp.Query.{
  Comparison, Core, Root, query, compares, compares_mixed, links, unlinks, atom, either, eval,
}
use realm_cpp.Query.Laws.{root, truth, holds, self_contained, direct}
use realm_cpp.Query.Small.{Numbers, small, small-Laws}
use realm_cpp.Query.Atoms.{eval-links_null}
use realm_cpp.Query.Meaning.{eval-either_stale}

-- `o.c0 > 3 || o.c1 == 7`, where the column 1 holds mixed values.
eval-either_stale_example :
    (r : Core.Query small) × (s : Root small) × (eval small
        (either
          (atom [] (compares Comparison.greater 0 (some 3)))
          (atom [] (compares_mixed Comparison.equal 1 7)))
        (root small small-Laws (2, λ o. true) 2)
      ≡ (some (query r), s))
    × ((o : Numbers) → r.1 o ≡ ltb 3 (o 0))
unfolding truth holds self_contained direct
eval-either_stale_example =
    eval-either_stale small small-Laws [] (compares Comparison.greater 0 (some 3))
      (compares_mixed Comparison.equal 1 7) (2, λ o. true) 2 refl refl refl

-- `o.link.c1 == nullptr` and `o.link.c1 != nullptr`
eval-links_null_example :
    eval small (atom (5 ∷ []) (links 1 none)) (root small small-Laws (2, λ o. true) 2)
    ≡ eval small (atom (5 ∷ []) (unlinks 1 none)) (root small small-Laws (2, λ o. true) 2)
eval-links_null_example = eval-links_null small small-Laws 5 [] 1 (2, λ o. true) 2
