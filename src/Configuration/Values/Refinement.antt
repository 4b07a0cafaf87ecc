-- ===== src/Configuration/Values/Refinement.antt =====
-- src/cpprealm/internal/bridge/realm.cpp: calls on configurations against calls on values.
use realm_cpp.Prelude.{
  ◌⊎◌, ℕ, suc, ◌<◌, ◌≡◌, refl, sym, ap, ◌∙◌, inl, inr, List, [], ◌∷◌, true, false, Option, none,
  some, ◌==◌, ==_iff, ==_refl, Bool-cases, Option-cases, subst, arith,
}
use realm_cpp.Prelude.Attempts.{Attempt, completed, threw, undefined, and_then}
use realm_cpp.Configuration.{
  RealmSettings, Store, put_at, new_config, allocate, copy_config, modify, modify_sync, setting,
  SyncSetting, set_custom_http_headers, set_proxy_config, set_client_reset_mode,
  before_client_reset, after_client_reset, set_error_handler, set_stop_policy, without_sync,
  with_schemas, Call, constructs, copies, sets, sets_sync, opens, run_call, run_calls,
}
use mathlib.Core.Path.{fun_ext}
use mathlib.Core.Option
use realm_cpp.Configuration.Values.{
  Values, view, value_modify, value_copy, value_sync, value_call, value_calls, Unique, Follows,
}

-- Setting one RealmConfig sets it for the one variable that has it.
view_put_at :
    (st : Store) (x a : ℕ) (v : RealmSettings)
    → Unique st
    → st.handle x ≡ some a
    → (y : ℕ)
    → put_at x (some v) (view st).vars y ≡ Option.map (put_at a v st.configs) (st.handle y)
view_put_at st x a v u n y = elim (Option-cases (st.handle y)) [
  | inl m ↦ elim (Bool-cases (y == x)) [
    | inl t ↦ absurd (let c : st.handle x ≡ none = ap st.handle (sym ((==_iff y x).0 t)) ∙ m in cc)
    | inr t ↦ rw (t, m) refl
  ]
  | inr (b, m) ↦ elim (Bool-cases (b == a)) [
    | inl s ↦
        let e : y ≡ x = u.one y x a (m ∙ ap some ((==_iff b a).0 s)) n in
        rw (m, s, e, ==_refl x) refl
    | inr s ↦ elim (Bool-cases (y == x)) [
      | inl t ↦ absurd (
          let c : some b ≡ some a = sym m ∙ ap st.handle ((==_iff y x).0 t) ∙ n in
          ground (arith, c, s))
      | inr t ↦ rw (t, m, s) refl
    ]
  ]
]

view_allocate :
    (st : Store) (x : ℕ) (v : RealmSettings)
    → Unique st
    → (y : ℕ) → put_at x (some v) (view st).vars y ≡ (view (allocate x v st)).vars y
unfolding allocate
view_allocate st x v u y = elim (Bool-cases (y == x)) [
  | inl t ↦ rw (t, ==_refl st.next_free) refl
  | inr t ↦ elim (Option-cases (st.handle y)) [
    | inl m ↦ rw (t, m) refl
    | inr (b, m) ↦
        let s : (b == st.next_free) ≡ false = let l = u.below y b m in ground (arith, l) in
        rw (t, m, s) refl
  ]
]

-- What holds of the address that a variable holds after an allocation.
allocated :
    (st : Store) (x : ℕ) (v : RealmSettings) (y a : ℕ)
    → (allocate x v st).handle y ≡ some a
    → ((y ≡ x) × (a ≡ st.next_free)) ⊎ (((y == x) ≡ false) × (st.handle y ≡ some a))
unfolding allocate
allocated st x v y a e = elim (Bool-cases (y == x)) [
  | inl t ↦ let s : some st.next_free ≡ some a = sym (rw (t) refl) ∙ e in inl ((==_iff y x).0 t, cc)
  | inr t ↦ inr (t, sym (rw (t) refl) ∙ e)
]

allocate_below :
    (st : Store) (x : ℕ) (v : RealmSettings)
    → Unique st
    → (y a : ℕ) → (allocate x v st).handle y ≡ some a
    → a < suc st.next_free
allocate_below st x v u y a e = elim (allocated st x v y a e) [
  | inl p ↦ omega (arith, p.1)
  | inr p ↦ let l = u.below y a p.1 in omega (arith, l)
]

pub allocate-Unique :
    (st : Store) (x : ℕ) (v : RealmSettings) → Unique st → Unique (allocate x v st)
unfolding allocate
allocate-Unique st x v u = record {
  one = λ y z a e f. elim (allocated st x v y a e) [
    | inl p ↦ elim (allocated st x v z a f) [
      | inl q ↦ p.0 ∙ sym q.0
      | inr q ↦ absurd (let l = u.below z a q.1 in omega (arith, l, p.1))
    ]
    | inr p ↦ elim (allocated st x v z a f) [
      | inl q ↦ absurd (let l = u.below y a p.1 in omega (arith, l, q.1))
      | inr q ↦ u.one y z a p.1 q.1
    ]
  ];
  below = allocate_below st x v u;
}

view_of_allocate :
    (st : Store) (x : ℕ) (v : RealmSettings)
    → Unique st
    → record (view st) { vars = put_at x (some v) (view st).vars } ≡ view (allocate x v st)
unfolding allocate
view_of_allocate st x v u =
    ap (λ (f : ℕ → Option RealmSettings). record { vars = f; syncs = st.syncs })
      (fun_ext (view_allocate st x v u))

modify-Follows :
    (x : ℕ) (f : RealmSettings → RealmSettings) (st : Store)
    → Unique st
    → Follows (modify x f st) (value_modify x f (view st))
unfolding modify value_modify
modify-Follows x f st u = elim (Option-cases (st.handle x)) [
  | inl n ↦ rw (Follows, modify, value_modify, n) refl
  | inr (a, n) ↦
      rw (Follows, modify, value_modify, n)
        (
          record { one = u.one; below = u.below },
          ap completed (
              ap (λ (g : ℕ → Option RealmSettings). record { vars = g; syncs = st.syncs })
                (fun_ext (view_put_at st x a (f (st.configs a)) u n))),
        )
]

copy-Follows :
    (x other : ℕ) (st : Store)
    → Unique st
    → Follows (copy_config true x other st) (value_copy x other (view st))
unfolding copy_config value_copy
copy-Follows x other st u = elim (Option-cases (st.handle other)) [
  | inl n ↦ rw (Follows, copy_config, value_copy, n) refl
  | inr (a, n) ↦
      rw (Follows, copy_config, value_copy, n)
        (
          allocate-Unique st x (st.configs a) u,
          ap completed (view_of_allocate st x (st.configs a) u),
        )
]

without_sync-Follows : (f : SyncSetting) → Follows (without_sync f) (without_sync f)
unfolding without_sync
without_sync-Follows (set_custom_http_headers headers) = refl
without_sync-Follows (set_proxy_config config) = refl
without_sync-Follows (set_client_reset_mode mode) = refl
without_sync-Follows (before_client_reset callback) = refl
without_sync-Follows (after_client_reset callback) = refl
without_sync-Follows (set_error_handler fn) = refl
without_sync-Follows (set_stop_policy v) = refl

sync-Follows :
    (x : ℕ) (f : SyncSetting) (st : Store)
    → Unique st
    → Follows (modify_sync x f st) (value_sync x f (view st))
unfolding modify_sync value_sync
sync-Follows x f st u = elim (Option-cases (st.handle x)) [
  | inl n ↦ rw (Follows, modify_sync, value_sync, n) refl
  | inr (a, n) ↦ elim (Option-cases (st.configs a).sync_config) [
    | inl m ↦ rw (modify_sync, value_sync, n, m) (without_sync-Follows f)
    | inr (s, m) ↦
        rw (Follows, modify_sync, value_sync, n, m) (record { one = u.one; below = u.below }, refl)
  ]
]

and_then-Follows :
    (a : Attempt Store) (r : Attempt Values) (f : Store → Attempt Store)
    (g : Values → Attempt Values)
    → Follows a r
    → ((st : Store) → Unique st → Follows (f st) (g (view st)))
    → Follows (and_then a f) (and_then r g)
and_then-Follows (completed st) r f g h k =
    subst (λ t. Follows (f st) (and_then t g)) (sym h.1) (k st h.0)
and_then-Follows threw r f g h k = ap (λ t. and_then t g) h
and_then-Follows undefined r f g h k = ap (λ t. and_then t g) h

call-Follows :
    (c : Call) (st : Store) → Unique st → Follows (run_call true c st) (value_call c (view st))
unfolding run_call value_call
call-Follows (constructs x path scheduler) st u = (
  allocate-Unique st x (new_config path scheduler) u,
  ap completed (view_of_allocate st x (new_config path scheduler) u),
)
call-Follows (copies x other) st u = copy-Follows x other st u
call-Follows (sets x s) st u = modify-Follows x (setting s) st u
call-Follows (sets_sync x s) st u = sync-Follows x s st u
call-Follows (opens x config schemas) st u =
    and_then-Follows (copy_config true x config st) (value_copy x config (view st))
      (modify x (with_schemas schemas)) (value_modify x (with_schemas schemas))
      (copy-Follows x config st u) (λ s v. modify-Follows x (with_schemas schemas) s v)

-- With CPPREALM_HAVE_GENERATED_BRIDGE_TYPES any calls on configurations do to the variables what they
-- do to variables that hold their settings as values, exceptions and null pointers included; but
-- the settings of sync are those of every configuration with the same sync config.
pub run_calls-value_calls :
    (cs : List Call) (st : Store)
    → Unique st
    → Follows (run_calls true cs st) (value_calls cs (view st))
unfolding run_calls value_calls
run_calls-value_calls [] st u = (u, refl)
run_calls-value_calls (c ∷ cs) st u =
    and_then-Follows (run_call true c st) (value_call c (view st)) (run_calls true cs)
      (value_calls cs) (call-Follows c st u) (λ s v. run_calls-value_calls cs s v)
