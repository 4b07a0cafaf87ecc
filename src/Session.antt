-- ===== src/Session.antt =====
-- src/cpprealm/internal/bridge/sync_session.cpp: sync sessions, which hold a weak pointer to the one of
-- realm-core, and the futures of wait_for_upload_completion and wait_for_download_completion.
--
-- `m_session` is what `m_session.lock()` gives. realm-core holds the lambdas that wait, each with its
-- promise, which is here the index of the promise; it calls a lambda once, and frees those that are
-- left when the session is destroyed, which breaks their promises.
pub mod Promises
pub mod Futures
mod Tests
use realm_cpp.Prelude.{
  ℕ, zero, suc, ◌==◌, List, [], ◌∷◌, ◌++◌, Bool, true, false, Option, none, some, length,
  if◌then◌else◌,
}
use mathlib.Core.Option

pub data Direction : Type 0 where
  upload : Direction
  download : Direction

-- realm::Status: `s.is_ok()`, or `s.code()`.
pub data Status : Type 0 where
  is_ok : Status
  has_code : ℕ → Status

-- The state that a promise shares with its future.
pub data Promise : Type 0 where
  pending : Promise
  fulfilled : Promise
  failed_with : ℕ → Promise
  session_destroyed : Promise
  broken_promise : Promise

pub record SyncSession {ℓ} (S : Type ℓ) : Type ℓ where
  pub m_session : Option S
  pub waiting : List (Direction × ℕ)
  pub promises : List Promise

pub data SessionEvent {ℓ} (S : Type ℓ) : Type ℓ where
  waits : Direction → SessionEvent S
  calls_back : ℕ → Status → SessionEvent S
  destroys : SessionEvent S
  commands : (S → S) → SessionEvent S

-- The lambda's `p.set_value()` or `p.set_exception(...)`, which throws if the promise is satisfied.
pub settle : Status → Promise → Option Promise
settle is_ok pending = some fulfilled
settle (has_code c) pending = some (failed_with c)
settle s fulfilled = none
settle s (failed_with c) = none
settle s session_destroyed = none
settle s broken_promise = none

pub settle_at : ℕ → Status → List Promise → Option (List Promise)
unfolding settle
settle_at n s [] = none
settle_at zero s (p ∷ ps) = Option.map (λ q. q ∷ ps) (settle s p)
settle_at (suc n) s (p ∷ ps) = Option.map (λ qs. p ∷ qs) (settle_at n s ps)

-- The promise is destroyed with its lambda.
pub break_promise : Promise → Promise
break_promise pending = broken_promise
break_promise fulfilled = fulfilled
break_promise (failed_with c) = failed_with c
break_promise session_destroyed = session_destroyed
break_promise broken_promise = broken_promise

pub break_at : ℕ → List Promise → List Promise
unfolding break_promise
break_at n [] = []
break_at zero (p ∷ ps) = break_promise p ∷ ps
break_at (suc n) (p ∷ ps) = p ∷ break_at n ps

pub break_all : List (Direction × ℕ) → List Promise → List Promise
unfolding break_at
break_all [] ps = ps
break_all (w ∷ ws) ps = break_all ws (break_at w.1 ps)

module _ {ℓ} {A : Type ℓ} where
  pub take_out : ℕ → List A → Option (A × List A)
  take_out k [] = none
  take_out zero (a ∷ as') = some (a, as')
  take_out (suc k) (a ∷ as') = Option.map (λ r. (r.0, a ∷ r.1)) (take_out k as')

module _ {ℓ} {S : Type ℓ} where
  -- wait_for_upload_completion() and wait_for_download_completion(), which return the future of the
  -- last promise.
  pub wait_for_completion : Direction → SyncSession S → SyncSession S
  wait_for_completion d s = elim s.m_session [
    | none ↦ record s { promises = s.promises ++ session_destroyed ∷ [] }
    | some session ↦ record s {
      waiting = s.waiting ++ (d, length s.promises) ∷ [];
      promises = s.promises ++ pending ∷ [];
    }
  ]

  -- realm-core calls the `k`-th lambda of those that wait; `none` is an exception in the lambda.
  pub call_back : ℕ → Status → SyncSession S → Option (SyncSession S)
  unfolding settle_at take_out
  call_back k status s = elim (take_out k s.waiting) [
    | none ↦ some s
    | some r ↦ elim (settle_at r.0.1 status s.promises) [
      | none ↦ none
      | some ps ↦ some (record s { waiting = r.1; promises = ps })
    ]
  ]

  pub destroyed : SyncSession S → SyncSession S
  unfolding break_all
  destroyed s = record { m_session = none; waiting = []; promises = break_all s.waiting s.promises }

  -- pause, resume and reconnect: the call of realm-core, or the exception.
  pub with_session : (S → S) → SyncSession S → Option (SyncSession S)
  with_session f s = elim s.m_session [
    | none ↦ none
    | some session ↦ some (record s { m_session = some (f session) })
  ]

  -- Whether a command throws is the second part.
  pub step : SessionEvent S → SyncSession S → Option (SyncSession S × Bool)
  unfolding wait_for_completion call_back destroyed with_session
  step (waits d) s = some (wait_for_completion d s, false)
  step (calls_back k status) s = Option.map (λ n. (n, false)) (call_back k status s)
  step destroys s = some (destroyed s, false)
  step (commands f) s = elim (with_session f s) [
    | none ↦ some (s, true)
    | some next ↦ some (next, false)
  ]

  pub run : List (SessionEvent S) → SyncSession S → Option (SyncSession S × List Bool)
  unfolding step
  run [] s = some (s, [])
  run (e ∷ es) s = elim (step e s) [
    | none ↦ none
    | some next ↦ Option.map (λ r. (r.0, next.1 ∷ r.1)) (run es next.0)
  ]
