-- ===== src/Configuration/Startup.antt =====
-- src/cpprealm/internal/bridge/realm.cpp: what opening the first Realm of a process does.
use realm_cpp.Prelude.{
  ℕ, suc, ◌≡◌, refl, List, [], ◌∷◌, ◌++◌, map, Bool, true, false, if◌then◌else◌,
}

-- The default logger of realm-core: its own, the null_logger, or one of the user's.
pub data Logger : Type 0 where
  core_logger null_logger : Logger
  user_logger : ℕ → Logger

-- The static `initialized`, and how often realm_analytics::send was called.
pub record Process : Type 0 where
  pub initialized : Bool
  pub default_logger : Logger
  pub sent : ℕ

-- set_default_logger
pub set_default_logger : Logger → Process → Process
set_default_logger l p = record p { default_logger = l }

-- realm(const config &), before the Realm is opened
pub initialize : Process → Process
unfolding set_default_logger
initialize p =
    if p.initialized
    then p
    else record (set_default_logger null_logger p) { sent = suc p.sent; initialized = true }

pub data ProcessEvent : Type 0 where
  opens_realm : ProcessEvent
  sets_logger : ℕ → ProcessEvent

pub process_event : ProcessEvent → Process → Process
unfolding initialize set_default_logger
process_event opens_realm p = initialize p
process_event (sets_logger l) p = set_default_logger (user_logger l) p

pub run_process : List ProcessEvent → Process → Process
unfolding process_event
run_process [] p = p
run_process (e ∷ es) p = run_process es (process_event e p)

pub started : Process
started = record { initialized = false; default_logger = core_logger; sent = 0 }

-- The logger that was set last, or the one before.
unfoldable pub last_logger : Logger → List ProcessEvent → Logger
last_logger l [] = l
last_logger l (opens_realm ∷ es) = last_logger l es
last_logger l (sets_logger k ∷ es) = last_logger (user_logger k) es

run_initialized :
    (es : List ProcessEvent) (l : Logger) (n : ℕ)
    → run_process es (record { initialized = true; default_logger = l; sent = n })
      ≡ record { initialized = true; default_logger = last_logger l es; sent = n }
unfolding run_process last_logger
run_initialized [] l n = refl
run_initialized (opens_realm ∷ es) l n = run_initialized es l n
run_initialized (sets_logger k ∷ es) l n = run_initialized es (user_logger k) n

run_loggers :
    (ls : List ℕ) (es : List ProcessEvent) (l : Logger)
    → run_process
        (map sets_logger ls ++ opens_realm ∷ es)
        (record { initialized = false; default_logger = l; sent = 0 })
      ≡ record { initialized = true; default_logger = last_logger null_logger es; sent = 1 }
unfolding run_process
run_loggers [] es l = run_initialized es null_logger 1
run_loggers (k ∷ ls) es l = run_loggers ls es (user_logger k)

-- Whatever loggers are set before the first Realm of a process is opened, opening it sets the null
-- logger, so that the default logger is the last one set behind it; and however many Realms are
-- opened, the analytics are sent once.
pub run_process-last_logger :
    (ls : List ℕ) (es : List ProcessEvent)
    → run_process (map sets_logger ls ++ opens_realm ∷ es) started
      ≡ record { initialized = true; default_logger = last_logger null_logger es; sent = 1 }
unfolding started
run_process-last_logger ls es = run_loggers ls es core_logger
