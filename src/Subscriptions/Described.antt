-- ===== src/Subscriptions/Described.antt =====
-- include/cpprealm/flex_sync.hpp: which rows the subscriptions of a set ask for after an update.
use realm_cpp.Prelude.{◌≡◌, Bool, Option, none, some}
use realm_cpp.Prelude.Bytes.{Bytes}
use realm_cpp.Query.{Core}
use realm_cpp.Query.Laws.{Laws}
use realm_cpp.Prelude.Attempts.{Attempt, completed, threw}
use realm_cpp.Subscriptions.{CoreSubscriptions, complete, is_complete}
use realm_cpp.Subscriptions.Laws.{SubscriptionLaws, Wanted, wanted}
use mathlib.Core.Option

module _ (core : Core) (laws : Laws core) (sync : CoreSubscriptions core)
    (rules : SubscriptionLaws sync) where
  open core use {Query, Table, from_table}
  open laws use {Row, matches, matches_from_table, table_from}
  open rules use {stored, copied, inserted, erased, erases_none, erases_some, cleared}

  abbrev Describes : sync.MutableSubscriptionSet → Wanted core laws → Type 0
  Describes m w =
      (n : Bytes) → wanted core laws (Option.map stored (sync.find_in_mutable n m)) ≡ w n

  unfoldable Fits : Attempt sync.MutableSubscriptionSet → Option (Wanted core laws) → Type 0
  Fits a none = a ≡ threw
  Fits a (some v) = (next : sync.MutableSubscriptionSet) × (a ≡ completed next) × Describes next v

  -- The rows that the subscriptions of a set ask for.
  abbrev pub wanted_of : sync.SubscriptionSet → Wanted core laws
  wanted_of s n = wanted core laws (Option.map stored (sync.find_in n s))

  -- What `update` gives: an exception that leaves the set, or a set with a future.
  unfoldable pub Updates :
      sync.SubscriptionSet
      → Attempt (sync.SubscriptionSet × Option Bool)
      → Option (Wanted core laws)
      → Type 0
  Updates s a none = a ≡ completed (s, none)
  Updates s a (some v) =
      (next : sync.SubscriptionSet) × (a
        ≡ completed (next, some (is_complete (sync.state_change_notification complete next))))
      × ((n : Bytes) → wanted_of next n ≡ v n)
