-- ===== src/Subscriptions.antt =====
-- include/cpprealm/flex_sync.hpp and src/cpprealm/flex_sync.cpp: sets of sync subscriptions, and the
-- changes that a block makes to a copy of a set before it is committed.
--
-- realm-core's sets are the record `CoreSubscriptions`; `none` of commit is an exception. The future
-- that `update` gives is the value that it will have. This is the build with shared pointers.
pub mod Laws
pub mod Described
mod Tests
use realm_cpp.Prelude.{ℕ, List, [], ◌∷◌, Bool, true, false, Option, none, some, if◌then◌else◌}
use realm_cpp.Prelude.Attempts.{Attempt, completed, threw, undefined}
use realm_cpp.Prelude.Bytes.{Bytes}
use realm_cpp.Query.{Core, Root, Rbool, boolean, query, Term, make_root, eval}
use mathlib.Core.Option

-- `realm::sync::SubscriptionSet::State`
pub data State : Type 0 where
  uncommitted pending bootstrapping awaiting_mark complete error superseded : State

pub record CoreSubscriptions (core : Core) : Type 1 where
  pub SubscriptionSet : Type 0
  pub MutableSubscriptionSet : Type 0
  pub Subscription : Type 0
  pub Identifier : Type 0
  pub to_string : Identifier → Bytes
  pub id_of : Subscription → Identifier
  pub name_of : Subscription → Option Bytes
  pub created_time : Subscription → ℕ
  pub updated_time : Subscription → ℕ
  pub query_text : Subscription → Bytes
  pub class_name : Subscription → Bytes
  pub find_in : Bytes → SubscriptionSet → Option Subscription
  pub make_mutable_copy : SubscriptionSet → MutableSubscriptionSet
  pub find_in_mutable : Bytes → MutableSubscriptionSet → Option Subscription
  pub insert_or_assign : Bytes → core.Query → MutableSubscriptionSet → MutableSubscriptionSet
  pub erase : Bytes → MutableSubscriptionSet → MutableSubscriptionSet × Bool
  pub clear : MutableSubscriptionSet → MutableSubscriptionSet
  pub commit : MutableSubscriptionSet → Option SubscriptionSet
  pub state_change_notification : State → SubscriptionSet → Option State

-- `sync_subscription`
pub record SyncSubscription : Type 0 where
  pub identifier : Bytes
  pub name : Option Bytes
  pub created_at : ℕ
  pub updated_at : ℕ
  pub query_string : Bytes
  pub object_class_name : Bytes

-- `p.set_value(state == sync::SubscriptionSet::State::Complete)`; an error status is `none`.
pub is_complete : Option State → Bool
is_complete (some complete) = true
is_complete (some uncommitted) = false
is_complete (some pending) = false
is_complete (some bootstrapping) = false
is_complete (some awaiting_mark) = false
is_complete (some error) = false
is_complete (some superseded) = false
is_complete none = false

module _ (core : Core) (sync : CoreSubscriptions core) where
  open core use {Query, Table, from_table}
  open sync use {
    SubscriptionSet, MutableSubscriptionSet, Subscription, to_string, id_of, name_of, created_time,
    updated_time, query_text, class_name, find_in, make_mutable_copy, find_in_mutable,
    insert_or_assign, erase, clear, commit, state_change_notification,
  }

  -- sync_subscription(const sync::Subscription &)
  pub sync_subscription : Subscription → SyncSubscription
  sync_subscription v = record {
    identifier = to_string (id_of v);
    name = name_of v;
    created_at = created_time v;
    updated_at = updated_time v;
    query_string = query_text v;
    object_class_name = class_name v;
  }

  -- sync_subscription_set::find
  pub find_subscription : Bytes → SubscriptionSet → Option SyncSubscription
  find_subscription name m_subscription_set =
      Option.map sync_subscription (find_in name m_subscription_set)

  -- mutable_sync_subscription_set::find
  pub find_mutable_subscription : Bytes → MutableSubscriptionSet → Option SyncSubscription
  find_mutable_subscription name m_subscription_set =
      Option.map sync_subscription (find_in_mutable name m_subscription_set)

  -- `insert_or_assign(name, r.q)` of the `rbool` that a block returns; a Boolean has no `q`.
  pub insert_returned :
      Bytes → Option (Rbool core) → MutableSubscriptionSet → Attempt MutableSubscriptionSet
  insert_returned name none set = undefined
  insert_returned name (some (boolean b)) set = undefined
  insert_returned name (some (query q)) set = completed (insert_or_assign name q set)

  -- `add`, with the block as an expression on the object that it is given.
  pub add_subscription :
      Bytes → Table → Option (Term core) → MutableSubscriptionSet → Attempt MutableSubscriptionSet
  unfolding insert_returned
  add_subscription name table_ref none set =
      completed (insert_or_assign name (from_table table_ref) set)
  add_subscription name table_ref (some query_fn) set =
      insert_returned name (eval core query_fn (make_root core (from_table table_ref))).0 set

  -- `remove`
  pub remove_subscription : Bytes → MutableSubscriptionSet → Attempt MutableSubscriptionSet
  remove_subscription name set =
      let r = erase name set in elim r.1 [ true ↦ completed r.0 | false ↦ threw ]

  -- `update_subscription`
  pub update_subscription :
      Bytes → Table → Option (Term core) → MutableSubscriptionSet → Attempt MutableSubscriptionSet
  unfolding remove_subscription add_subscription
  update_subscription name table_ref query_fn set = elim (remove_subscription name set) [
    | completed next ↦ add_subscription name table_ref query_fn next
    | threw ↦ threw
    | undefined ↦ undefined
  ]

  -- The calls that a block makes.
  pub data Change : Type 0 where
    add_it update_it : Bytes → Table → Option (Term core) → Change
    remove_it : Bytes → Change
    clear_all : Change

  pub change : Change → MutableSubscriptionSet → Attempt MutableSubscriptionSet
  unfolding add_subscription update_subscription remove_subscription
  change (add_it name t fn) set = add_subscription name t fn set
  change (update_it name t fn) set = update_subscription name t fn set
  change (remove_it name) set = remove_subscription name set
  change clear_all set = completed (clear set)

  -- A block that makes the calls in order and catches nothing.
  pub change_all : List Change → MutableSubscriptionSet → Attempt MutableSubscriptionSet
  unfolding change
  change_all [] set = completed set
  change_all (c ∷ cs) set = elim (change c set) [
    | completed next ↦ change_all cs next
    | threw ↦ threw
    | undefined ↦ undefined
  ]

  -- `update`: the set that the object has afterwards, and the value of the future, `none` if the
  -- call throws.
  pub update_set :
      (MutableSubscriptionSet → Attempt MutableSubscriptionSet)
      → SubscriptionSet
      → Attempt (SubscriptionSet × Option Bool)
  unfolding is_complete
  update_set fn m_subscription_set = elim (fn (make_mutable_copy m_subscription_set)) [
    | threw ↦ completed (m_subscription_set, none)
    | undefined ↦ undefined
    | completed mutable_set ↦ elim (commit mutable_set) [
      | none ↦ completed (m_subscription_set, none)
      | some next ↦ completed (next, some (is_complete (state_change_notification complete next)))
    ]
  ]
