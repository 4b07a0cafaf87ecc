-- ===== src/Net/Shim/Once.antt =====
-- src/cpprealm/internal/networking/shims.cpp: realm-core's completion block is called once, and freed.
use realm_cpp.Prelude.{◌≡◌, refl, ◌⊎◌, inl, inr, ap, List, [], ◌∷◌, false, some, length, arith}
use realm_cpp.Net.Transport.{Response, Configuration, World, threw}
use realm_cpp.Net.Transport.Send.{send_request_to_server}
use realm_cpp.Net.Transport.Send.Completion.{send_request_to_server-CompletesOnce}
use realm_cpp.Net.Shim.{
  AppRequest, to_request, to_core_response, allocated, freed, run_lambda, run_lambdas, shim_request,
}

single {ℓ} : {A : Type ℓ} (l : List A) → length l ≡ 1 → (a : A) × (l ≡ a ∷ [])
single [] e = absurd (omega (arith, e))
single (a ∷ []) e = (a, refl)
single (a ∷ b ∷ l) e = absurd (omega (arith, e))

-- One response uses the block, and frees it.
run_lambdas-length :
    (rs : List Response)
    → (length rs ≡ 1
        → (r : Response) × (rs ≡ r ∷ [])
          × (run_lambdas rs allocated ≡ some (freed, to_core_response r ∷ [])))
unfolding run_lambdas run_lambda
run_lambdas-length rs e = let s = single rs e in (s.0, s.1, ap (λ l. run_lambdas l allocated) s.1)

-- Through the shim, as long as there is no `ssl_verify_callback`, a request of realm-core gets
-- exactly one response, that of the default transport, and its completion block is freed and not
-- used after that, whatever the network answers. Unless the default transport throws: then the
-- request gets no response, and the block is never freed.
pub shim_request-freed :
    (w : World) (c : Configuration) (request : AppRequest)
    → c.ssl_verify_callback ≡ false
    → ((r : Response) × ((send_request_to_server w c (to_request request)).completions ≡ r ∷ [])
        × (shim_request w c request ≡ some (freed, to_core_response r ∷ [])))
      ⊎ (((send_request_to_server w c (to_request request)).ending ≡ threw)
          × (shim_request w c request ≡ some (allocated, [])))
unfolding shim_request
shim_request-freed w c request e =
    elim (send_request_to_server-CompletesOnce w c (to_request request) e) [
      | inl once ↦
          inl (
            run_lambdas-length (send_request_to_server w c (to_request request)).completions once.0)
      | inr failed ↦
          inr (failed.0, unfold run_lambdas in ap (λ l. run_lambdas l allocated) failed.1)
    ]
