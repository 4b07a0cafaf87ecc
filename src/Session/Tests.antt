-- ===== src/Session/Tests.antt =====
-- The theorem about the futures of sessions at a concrete run.
use realm_cpp.Prelude.{ℕ, ◌+◌, ◌≡◌, refl, List, [], ◌∷◌, Bool, true, false, none, some, get_elem?}
use realm_cpp.Session.{
  SyncSession, SessionEvent, upload, download, is_ok, waits, calls_back, destroys, commands,
  fulfilled, broken_promise, session_destroyed, run,
}
use realm_cpp.Session.Promises.{pending_count, waiting_count}
use realm_cpp.Session.Futures.{Matched, Keeps, run-Matched}

-- A session of realm-core is the number of commands that it was given.
abbrev begin_session : SyncSession ℕ
begin_session = record { m_session = some 0; waiting = []; promises = [] }

begin_session-Matched : Matched begin_session
unfolding pending_count waiting_count
begin_session-Matched = ((λ n. refl), λ e. refl)

-- The first wait ends well, the second is left when the session is destroyed, the third comes after.
abbrev events : List (SessionEvent ℕ)
events =
    waits upload
    ∷ waits download
    ∷ commands (λ n. n + 1)
    ∷ calls_back 0 is_ok
    ∷ destroys
    ∷ waits upload
    ∷ commands (λ n. n + 1)
    ∷ []

at_the_end :
    run events begin_session
    ≡ some (
      record {
        m_session = none;
        waiting = [];
        promises = fulfilled ∷ broken_promise ∷ session_destroyed ∷ [];
      },
      false ∷ false ∷ false ∷ false ∷ false ∷ false ∷ true ∷ [],
    )
unfolding run
at_the_end = refl

run-Matched_example :
    (r : SyncSession ℕ × List Bool) × (run events begin_session ≡ some r)
    × Matched r.0
    × (r.0.m_session ≡ none → (n : ℕ) → pending_count (get_elem? r.0.promises n) ≡ 0)
    × Keeps begin_session r.0
run-Matched_example = run-Matched events begin_session begin_session-Matched
