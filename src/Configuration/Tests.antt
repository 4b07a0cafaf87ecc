-- ===== src/Configuration/Tests.antt =====
-- The theorems about configurations at concrete programs.
use realm_cpp.Prelude.{◌≡◌, refl, List, [], ◌∷◌, ◌++◌, true, false, none, some, arith}
use realm_cpp.Prelude.Bytes.{codes}
use realm_cpp.Prelude.Attempts.{completed}
use realm_cpp.Configuration.{
  Store, SyncSettings, reset_manual, immediately, new_config, allocate, Call, copies, sets,
  sets_sync, opens, run_call, run_calls, set_schema_version, set_client_reset_mode, recover,
  flexible_sync_configuration,
}
use realm_cpp.Configuration.Values.{view, value_calls, Unique, Follows}
use realm_cpp.Configuration.Values.Refinement.{allocate-Unique, run_calls-value_calls}
use realm_cpp.Configuration.Sharing.{opens-with_schemas, described_by}
use realm_cpp.Schema.{CoreSchema, ObjectType}

abbrev no_sync : SyncSettings
no_sync = record {
  custom_http_headers = [];
  proxy_config = none;
  client_resync_mode = reset_manual;
  notify_before_client_reset = none;
  notify_after_client_reset = none;
  error_handler = none;
  stop_policy = immediately;
}

abbrev no_configs : Store
no_configs = record {
  handle = λ x. none;
  configs = λ a. new_config [] 0;
  syncs = λ s. no_sync;
  next_free = 0;
}

no_configs-Unique : Unique no_configs
no_configs-Unique = record { one = λ x y a e f. cc; below = λ x a e. absurd (cc) }

-- A configuration for flexible sync, a copy of it, and changes to the copy.
abbrev program : List Call
program =
    flexible_sync_configuration 0 (codes "default.realm") 1 5 6 (codes "user.realm")
    ++ copies 1 0
      ∷ sets 1 (set_schema_version 3)
      ∷ sets_sync 1 (set_client_reset_mode recover)
      ∷ opens 2 1 []
      ∷ []

run_calls-value_calls_example :
    Follows (run_calls true program no_configs) (value_calls program (view no_configs))
run_calls-value_calls_example = run_calls-value_calls program no_configs no_configs-Unique

-- Headers cannot be set without a sync config.
abbrev one_config : Store
one_config = allocate 0 (new_config (codes "a.realm") 0) no_configs

abbrev schemas : List CoreSchema
schemas =
    record {
      name = codes "person";
      persisted_properties = [];
      primary_key = [];
      object_type = ObjectType.top_level;
    }
    ∷ []

opens-with_schemas_example :
    (next : Store) × (run_call false (opens 9 0 schemas) one_config ≡ completed next)
    × ((view next).vars 9 ≡ some (described_by schemas (new_config (codes "a.realm") 0)))
    × ((view next).vars 0 ≡ some (described_by schemas (new_config (codes "a.realm") 0)))
unfolding allocate new_config
opens-with_schemas_example =
    (opens-with_schemas 9 0 0 schemas one_config
      (allocate-Unique no_configs 0 (new_config (codes "a.realm") 0) no_configs-Unique)
      (omega arith) refl refl).0
