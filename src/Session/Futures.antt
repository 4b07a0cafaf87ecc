-- ===== src/Session/Futures.antt =====
-- src/cpprealm/internal/bridge/sync_session.cpp: when the futures of a session are settled.
use realm_cpp.Prelude.{
  ℕ, ◌+◌, ◌==◌, ◌≡◌, refl, sym, ap, ◌∙◌, inl, inr, Bool-cases, Option-cases, List, [], ◌∷◌, Bool,
  true, false, none, some, length, get_elem?, if◌then◌else◌, arith,
}
use realm_cpp.Session.{
  Direction, Status, Promise, pending, session_destroyed, SyncSession, SessionEvent, waits,
  calls_back, destroys, commands, take_out, wait_for_completion, call_back, destroyed, with_session,
  step, run,
}
use realm_cpp.Session.Promises.{
  pending_count, one_if, waiting_count, waiting_count-snoc, pending_count-snoc, pending_count-most,
  settled, settle-pending, take_out-waiting_count, settle_at-pending, break_all-pending_count,
  break_all-kept, get_elem?-kept,
}
use mathlib.Core.Option

settled-kept :
    (n m : ℕ) (status : Status) (ps next : List Promise) (p : Promise)
    → get_elem? next n ≡ (if n == m then some (settled status) else get_elem? ps n)
    → pending_count (get_elem? ps m) ≡ 1
    → get_elem? ps n ≡ some p
    → pending_count (some p) ≡ 0
    → get_elem? next n ≡ some p
settled-kept n m status ps next p q one f g = elim (Bool-cases (n == m)) [
  | inl b ↦
      let same : n ≡ m = ground arith in
      let c : pending_count (get_elem? ps m) ≡ 0 =
        ap (λ k. pending_count (get_elem? ps k)) (sym same) ∙ ap pending_count f ∙ g in
      absurd (omega (arith, c, one))
  | inr b ↦ q ∙ ap (λ c. if c then some (settled status) else get_elem? ps n) b ∙ f
]

module _ {ℓ} {S : Type ℓ} where
  -- Each pending promise is the promise of one lambda that waits, and a session that is destroyed has
  -- no lambda.
  abbrev pub Matched : SyncSession S → Type ℓ
  Matched s =
      ((n : ℕ) → pending_count (get_elem? s.promises n) ≡ waiting_count n s.waiting)
      × (s.m_session ≡ none → s.waiting ≡ [])

  -- A future that is settled stays as it is.
  abbrev pub Keeps : SyncSession S → SyncSession S → Type 0
  Keeps s t =
      (n : ℕ) (p : Promise)
      → get_elem? s.promises n ≡ some p
      → pending_count (some p) ≡ 0
      → get_elem? t.promises n ≡ some p

  wait_for_completion-Matched :
      (d : Direction) (s : SyncSession S)
      → Matched s
      → Matched (wait_for_completion d s) × Keeps s (wait_for_completion d s)
  unfolding wait_for_completion pending_count one_if
  wait_for_completion-Matched d s h = elim (Option-cases s.m_session) [
    | inl e ↦
        rw (wait_for_completion, e)
          (
            (
              (λ n. ground (arith, pending_count-snoc n session_destroyed s.promises, h.0 n)),
              λ q. h.1 e,
            ),
            λ n p f g. get_elem?-kept n s.promises p session_destroyed f,
          )
    | inr (session, e) ↦
        rw (wait_for_completion, e)
          (
            (
              (λ n. ground (
                arith,
                pending_count-snoc n pending s.promises,
                waiting_count-snoc n (length s.promises) d s.waiting,
                h.0 n,
              )),
              λ q. absurd (let c = sym q ∙ e in cc),
            ),
            λ n p f g. get_elem?-kept n s.promises p pending f,
          )
  ]

  settled-count :
      (n m : ℕ) (status : Status) (s : SyncSession S) (next : List Promise)
      (rest : List (Direction × ℕ))
      → get_elem? next n ≡ (if n == m then some (settled status) else get_elem? s.promises n)
      → pending_count (get_elem? s.promises n) ≡ waiting_count n s.waiting
      → waiting_count n s.waiting ≡ one_if (n == m) + waiting_count n rest
      → pending_count (get_elem? next n) ≡ waiting_count n rest
  unfolding one_if pending_count
  settled-count n m status s next rest q h w = elim (Bool-cases (n == m)) [
    | inl b ↦
        let now : pending_count (get_elem? next n) ≡ 0 =
          ap pending_count
            (q ∙ ap (λ c. if c then some (settled status) else get_elem? s.promises n) b)
          ∙ (settle-pending status pending refl).1 in
        let w1 = w ∙ ap (λ c. one_if c + waiting_count n rest) b in
        omega (arith, now, h, w1, pending_count-most (get_elem? s.promises n))
    | inr b ↦
        let now : pending_count (get_elem? next n) ≡ pending_count (get_elem? s.promises n) =
          ap pending_count
            (q ∙ ap (λ c. if c then some (settled status) else get_elem? s.promises n) b) in
        let w1 = w ∙ ap (λ c. one_if c + waiting_count n rest) b in omega (arith, now, h, w1)
  ]

  call_back-Matched :
      (k : ℕ) (status : Status) (s : SyncSession S)
      → Matched s
      → (next : SyncSession S) × (call_back k status s ≡ some next) × Matched next × Keeps s next
  unfolding call_back take_out one_if
  call_back-Matched k status s h = elim (Option-cases (take_out k s.waiting)) [
    | inl e ↦ (s, rw (call_back, e) refl, h, λ n p f g. f)
    | inr (r, e) ↦
        let one : pending_count (get_elem? s.promises r.0.1) ≡ 1 = ground (
          arith,
          h.0 r.0.1,
          take_out-waiting_count k r.0.1 s.waiting r.0 r.1 e,
          pending_count-most (get_elem? s.promises r.0.1),
        ) in
        let q = settle_at-pending r.0.1 status s.promises one in
        (
          record s { waiting = r.1; promises = q.0 },
          rw (call_back, e, q.1) refl,
          (
            (λ n.
                settled-count n r.0.1 status s q.0 r.1 (q.2 n) (h.0 n)
                  (take_out-waiting_count k n s.waiting r.0 r.1 e)),
            λ f. absurd (let c = sym (ap (take_out k) (h.1 f)) ∙ e in cc),
          ),
          λ n p f g. settled-kept n r.0.1 status s.promises q.0 p (q.2 n) one f g,
        )
  ]

  destroyed-Matched :
      (s : SyncSession S) → Matched s → Matched (destroyed s) × Keeps s (destroyed s)
  unfolding destroyed waiting_count
  destroyed-Matched s h = (
    (λ n. break_all-pending_count n s.waiting s.promises (omega (arith, h.0 n)), λ e. refl),
    λ n p f g. break_all-kept n s.waiting s.promises p f g,
  )

  with_session_destroyed :
      (f : S → S) (s : SyncSession S) → s.m_session ≡ none → with_session f s ≡ none
  unfolding with_session
  with_session_destroyed f s e = rw (with_session, e) refl

  with_session_alive :
      (f : S → S) (s : SyncSession S) (session : S)
      → s.m_session ≡ some session
      → with_session f s ≡ some (record s { m_session = some (f session) })
  unfolding with_session
  with_session_alive f s session e = rw (with_session, e) refl

  step-Matched :
      (e : SessionEvent S) (s : SyncSession S)
      → Matched s
      → (r : SyncSession S × Bool) × (step e s ≡ some r) × Matched r.0 × Keeps s r.0
  unfolding step
  step-Matched (waits d) s h = (
    (wait_for_completion d s, false),
    refl,
    (wait_for_completion-Matched d s h).0,
    (wait_for_completion-Matched d s h).1,
  )
  step-Matched (calls_back k status) s h =
      let r = call_back-Matched k status s h in
      ((r.0, false), ap (Option.map (λ n. (n, false))) r.1, r.2, r.3)
  step-Matched destroys s h =
      ((destroyed s, false), refl, (destroyed-Matched s h).0, (destroyed-Matched s h).1)
  step-Matched (commands f) s h = elim (Option-cases s.m_session) [
    | inl e ↦ ((s, true), rw (step, with_session_destroyed f s e) refl, h, λ n p g k. g)
    | inr (session, e) ↦ (
      (record s { m_session = some (f session) }, false),
      rw (step, with_session_alive f s session e) refl,
      (h.0, λ q. absurd (cc)),
      λ n p g k. g,
    )
  ]

  -- From a session whose pending promises are those of the lambdas that wait, one for each, no sequence
  -- of waits, calls of the lambdas, commands and the destruction of the session has a lambda settle a
  -- promise twice. The promises stay matched, so that no future is pending once the session is
  -- destroyed, those of later waits neither; and a future that is settled stays as it is.
  pub run-Matched :
      (es : List (SessionEvent S)) (s : SyncSession S)
      → Matched s
      → (r : SyncSession S × List Bool) × (run es s ≡ some r)
        × Matched r.0
        × (r.0.m_session ≡ none → (n : ℕ) → pending_count (get_elem? r.0.promises n) ≡ 0)
        × Keeps s r.0
  unfolding run waiting_count
  run-Matched [] s h =
      ((s, []), refl, h, (λ e n. h.0 n ∙ ap (waiting_count n) (h.1 e)), λ n p g k. g)
  run-Matched (e ∷ es) s h =
      let now = step-Matched e s h in
      let rest = run-Matched es now.0.0 now.2 in
      (
        (rest.0.0, now.0.1 ∷ rest.0.1),
        rw (run, now.1, rest.1) refl,
        rest.2,
        rest.3,
        λ n p g k. rest.4 n p (now.3 n p g k) k,
      )
