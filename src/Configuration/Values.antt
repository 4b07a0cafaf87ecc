-- ===== src/Configuration/Values.antt =====
-- src/cpprealm/internal/bridge/realm.cpp: configurations as values, in the build where each has its own
-- RealmConfig.
pub mod Refinement
use realm_cpp.Prelude.{
  ◌⊎◌, ℕ, suc, ◌≤◌, ◌<◌, ◌≡◌, refl, sym, ap, ◌∙◌, inl, inr, List, [], ◌∷◌, Bool, true, false,
  Option, none, some, ◌==◌, ==_iff, ==_refl, Bool-cases, Option-cases, subst, arith, if◌then◌else◌,
}
use realm_cpp.Prelude.Attempts.{Attempt, completed, threw, undefined, and_then}
use realm_cpp.Configuration.{
  RealmSettings, SyncSettings, Store, put_at, new_config, allocate, copy_config, modify,
  modify_sync, Setting, setting, SyncSetting, set_custom_http_headers, set_proxy_config,
  set_client_reset_mode, before_client_reset, after_client_reset, set_error_handler,
  set_stop_policy, sync_setting, without_sync, with_schemas, Call, constructs, copies, sets,
  sets_sync, opens, run_call, run_calls,
}
use mathlib.Core.Path.{fun_ext}
use mathlib.Core.Option

-- The settings in each variable; only those of sync are behind a pointer.
pub record Values : Type 0 where
  pub vars : ℕ → Option RealmSettings
  pub syncs : ℕ → SyncSettings

abbrev pub view : Store → Values
view st = record { vars = λ x. Option.map st.configs (st.handle x); syncs = st.syncs }

unfoldable pub value_modify : ℕ → (RealmSettings → RealmSettings) → Values → Attempt Values
value_modify x f vs = elim (vs.vars x) [
  | none ↦ undefined
  | some v ↦ completed (record vs { vars = put_at x (some (f v)) vs.vars })
]

unfoldable pub value_copy : ℕ → ℕ → Values → Attempt Values
value_copy x other vs = elim (vs.vars other) [
  | none ↦ undefined
  | some v ↦ completed (record vs { vars = put_at x (some v) vs.vars })
]

unfoldable pub value_sync : ℕ → SyncSetting → Values → Attempt Values
unfolding sync_setting without_sync
value_sync x f vs = elim (vs.vars x) [
  | none ↦ undefined
  | some v ↦ elim v.sync_config [
    | none ↦ without_sync f
    | some s ↦ completed (record vs { syncs = put_at s (sync_setting f (vs.syncs s)) vs.syncs })
  ]
]

-- A call on variables that hold their settings.
unfoldable pub value_call : Call → Values → Attempt Values
unfolding value_modify value_copy value_sync new_config setting with_schemas
value_call (constructs x path scheduler) vs =
    completed (record vs { vars = put_at x (some (new_config path scheduler)) vs.vars })
value_call (copies x other) vs = value_copy x other vs
value_call (sets x s) vs = value_modify x (setting s) vs
value_call (sets_sync x s) vs = value_sync x s vs
value_call (opens x config schemas) vs =
    and_then (value_copy x config vs) (value_modify x (with_schemas schemas))

unfoldable pub value_calls : List Call → Values → Attempt Values
value_calls [] vs = completed vs
value_calls (c ∷ cs) vs = and_then (value_call c vs) (value_calls cs)

-- No two variables hold the same RealmConfig, and the free ones are unused.
pub record Unique (st : Store) : Type 0 where
  pub one : (x y a : ℕ) → st.handle x ≡ some a → st.handle y ≡ some a → x ≡ y
  pub below : (x a : ℕ) → st.handle x ≡ some a → a < st.next_free

-- A call gives what the call on values gives.
abbrev pub Follows : Attempt Store → Attempt Values → Type 0
Follows (completed st) r = Unique st × (r ≡ completed (view st))
Follows threw r = r ≡ threw
Follows undefined r = r ≡ undefined
