-- ===== src/Configuration.antt =====
-- src/cpprealm/internal/bridge/realm.cpp: the configuration of a Realm, with the pieces of
-- include/cpprealm/db.hpp and src/cpprealm/app.cpp that change one.
--
-- A program has configurations in variables. A `config` holds its RealmConfig by a shared pointer,
-- or, with CPPREALM_HAVE_GENERATED_BRIDGE_TYPES, by itself; the SyncConfig is behind a shared pointer in
-- both builds. Variables, RealmConfigs and SyncConfigs are numbers of a store; callbacks and
-- schedulers are numbers too.
pub mod Values
pub mod Sharing
pub mod Startup
mod Tests
use realm_cpp.Prelude.{
  ℕ, suc, List, [], ◌∷◌, Bool, true, false, Option, none, some, ◌==◌, if◌then◌else◌,
}
use realm_cpp.Prelude.Attempts.{Attempt, completed, threw, undefined, and_then}
use realm_cpp.Prelude.Bytes.{Bytes}
use realm_cpp.Net.Transport.{ProxyConfig}
use realm_cpp.Schema.{CoreSchema}

pub data SchemaMode : Type 0 where
  automatic immutable read_only soft_reset_file hard_reset_file : SchemaMode
  additive_discovered additive_explicit manual : SchemaMode

pub data ClientResetMode : Type 0 where
  reset_manual discard_unsynced recover recover_or_discard : ClientResetMode

pub data StopPolicy : Type 0 where
  immediately live_indefinitely after_changes_uploaded : StopPolicy

-- realm-core's SyncConfig, as far as the bridge changes it. Its proxy has no credentials.
pub record SyncSettings : Type 0 where
  pub custom_http_headers : List (Bytes × Bytes)
  pub proxy_config : Option (Bytes × ℕ)
  pub client_resync_mode : ClientResetMode
  pub notify_before_client_reset : Option ℕ
  pub notify_after_client_reset : Option ℕ
  pub error_handler : Option ℕ
  pub stop_policy : StopPolicy

-- realm-core's RealmConfig.
pub record RealmSettings : Type 0 where
  pub path : Bytes
  pub cache : Bool
  pub scheduler : ℕ
  pub schema : Option (List CoreSchema)
  pub schema_mode : SchemaMode
  pub schema_version : ℕ
  pub encryption_key : Bytes
  pub should_compact : Option ℕ
  pub force_sync_history : Bool
  pub sync_config : Option ℕ

pub record Store : Type 0 where
  pub handle : ℕ → Option ℕ
  pub configs : ℕ → RealmSettings
  pub syncs : ℕ → SyncSettings
  pub next_free : ℕ

abbrev pub put_at {ℓ} : {A : Type ℓ} → ℕ → A → (ℕ → A) → ℕ → A
put_at k v f j = if j == k then v else f j

-- config(path, scheduler)
pub new_config : Bytes → ℕ → RealmSettings
new_config path scheduler = record {
  path = path;
  cache = true;
  scheduler = scheduler;
  schema = none;
  schema_mode = automatic;
  schema_version = 0;
  encryption_key = [];
  should_compact = none;
  force_sync_history = false;
  sync_config = none;
}

-- A RealmConfig of its own for the variable.
pub allocate : ℕ → RealmSettings → Store → Store
allocate x v st = record {
  handle = put_at x (some st.next_free) st.handle;
  configs = put_at st.next_free v st.configs;
  syncs = st.syncs;
  next_free = suc st.next_free;
}

-- config(const config &), by the build
pub copy_config : Bool → ℕ → ℕ → Store → Attempt Store
unfolding allocate
copy_config generated x other st = elim (st.handle other) [
  | none ↦ undefined
  | some a ↦ elim generated [
    | true ↦ completed (allocate x (st.configs a) st)
    | false ↦ completed (record st { handle = put_at x (some a) st.handle })
  ]
]

-- `get_config()->...`
pub modify : ℕ → (RealmSettings → RealmSettings) → Store → Attempt Store
modify x f st = elim (st.handle x) [
  | none ↦ undefined
  | some a ↦ completed (record st { configs = put_at a (f (st.configs a)) st.configs })
]

-- The setters of a config, and of the `sync_config` that `config.sync_config()` gives.
pub data Setting : Type 0 where
  set_path : Bytes → Setting
  set_schema : List CoreSchema → Setting
  set_schema_mode : SchemaMode → Setting
  set_schema_version : ℕ → Setting
  set_encryption_key : Bytes → Setting
  set_scheduler : ℕ → Setting
  should_compact_on_launch : ℕ → Setting
  enable_forced_sync_history : Setting
  set_sync_config : Option ℕ → Setting

pub setting : Setting → RealmSettings → RealmSettings
setting (set_path path) c = record c { path = path }
setting (set_schema v) c = record c { schema = some v }
setting (set_schema_mode mode) c = record c { schema_mode = mode }
setting (set_schema_version version) c = record c { schema_version = version }
setting (set_encryption_key key) c = record c { encryption_key = key }
setting (set_scheduler s) c = record c { scheduler = s }
setting (should_compact_on_launch fn) c = record c { should_compact = some fn }
setting enable_forced_sync_history c = record c { force_sync_history = true }
setting (set_sync_config s) c = record c { sync_config = s }

pub data SyncSetting : Type 0 where
  set_custom_http_headers : List (Bytes × Bytes) → SyncSetting
  set_proxy_config : ProxyConfig → SyncSetting
  set_client_reset_mode : ClientResetMode → SyncSetting
  before_client_reset after_client_reset set_error_handler : ℕ → SyncSetting
  set_stop_policy : StopPolicy → SyncSetting

pub sync_setting : SyncSetting → SyncSettings → SyncSettings
sync_setting (set_custom_http_headers headers) s = record s { custom_http_headers = headers }
sync_setting (set_proxy_config config) s = record s {
  proxy_config = some (config.address, config.port);
}
sync_setting (set_client_reset_mode mode) s = record s { client_resync_mode = mode }
sync_setting (before_client_reset callback) s = record s {
  notify_before_client_reset = some callback;
}
sync_setting (after_client_reset callback) s = record s {
  notify_after_client_reset = some callback;
}
sync_setting (set_error_handler fn) s = record s { error_handler = some fn }
sync_setting (set_stop_policy v) s = record s { stop_policy = v }

-- The two setters that test for a sync config throw without one, the others follow the pointer.
pub without_sync {ℓ} : {A : Type ℓ} → SyncSetting → Attempt A
without_sync (set_custom_http_headers headers) = threw
without_sync (set_proxy_config config) = threw
without_sync (set_client_reset_mode mode) = undefined
without_sync (before_client_reset callback) = undefined
without_sync (after_client_reset callback) = undefined
without_sync (set_error_handler fn) = undefined
without_sync (set_stop_policy v) = undefined

-- `get_config()->sync_config->...`
pub modify_sync : ℕ → SyncSetting → Store → Attempt Store
unfolding sync_setting without_sync
modify_sync x f st = elim (st.handle x) [
  | none ↦ undefined
  | some a ↦ elim (st.configs a).sync_config [
    | none ↦ without_sync f
    | some s ↦ completed (record st { syncs = put_at s (sync_setting f (st.syncs s)) st.syncs })
  ]
]

-- The schema that db's constructor sets if there is none: `db::schemas`.
pub with_schemas : List CoreSchema → RealmSettings → RealmSettings
unfolding setting
with_schemas schemas c = elim c.schema [ none ↦ setting (set_schema schemas) c | some v ↦ c ]

pub data Call : Type 0 where
  constructs : ℕ → Bytes → ℕ → Call
  copies : ℕ → ℕ → Call
  sets : ℕ → Setting → Call
  sets_sync : ℕ → SyncSetting → Call
  -- `db(config)`, whose parameter is the copy `x` of the config.
  opens : ℕ → ℕ → List CoreSchema → Call

pub run_call : Bool → Call → Store → Attempt Store
unfolding new_config allocate copy_config modify modify_sync setting sync_setting without_sync
    with_schemas
run_call generated (constructs x path scheduler) st =
    completed (allocate x (new_config path scheduler) st)
run_call generated (copies x other) st = copy_config generated x other st
run_call generated (sets x s) st = modify x (setting s) st
run_call generated (sets_sync x s) st = modify_sync x s st
run_call generated (opens x config schemas) st =
    and_then (copy_config generated x config st) (modify x (with_schemas schemas))

pub run_calls : Bool → List Call → Store → Attempt Store
unfolding run_call
run_calls generated [] st = completed st
run_calls generated (c ∷ cs) st = and_then (run_call generated c st) (run_calls generated cs)

-- user::flexible_sync_configuration into the variable `x`, with a new SyncConfig at `s`; `handler`
-- prints the errors, and `path` is what realm-core gives for the user.
pub flexible_sync_configuration : ℕ → Bytes → ℕ → ℕ → ℕ → Bytes → List Call
flexible_sync_configuration x default_path scheduler s handler path =
    constructs x default_path scheduler
    ∷ sets x (set_sync_config (some s))
    ∷ sets_sync x (set_error_handler handler)
    ∷ sets x (set_path path)
    ∷ sets_sync x (set_stop_policy after_changes_uploaded)
    ∷ sets x (set_schema_mode additive_discovered)
    ∷ []
