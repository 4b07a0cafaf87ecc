-- ===== src/Subscriptions/Laws.antt =====
-- include/cpprealm/flex_sync.hpp: what realm-core's sets of subscriptions do, and what the calls on
-- them should do: which rows the subscription of each name asks for.
use realm_cpp.Prelude.{
  ◌&&◌, ◌≡◌, List, [], ◌∷◌, Bool, true, false, Option, none, some, if◌then◌else◌,
}
use realm_cpp.Prelude.Bytes.{Bytes, bytes_eq}
use realm_cpp.Query.{Core, Term}
use realm_cpp.Query.Laws.{Laws, truth, self_contained, keeps_table}
use realm_cpp.Subscriptions.{CoreSubscriptions, Change, add_it, update_it, remove_it, clear_all}
use mathlib.Core.Option

-- realm-core's sets: one subscription for a name, with the query it was inserted with. A set that is
-- made of another, changed and committed only once is committed without an exception.
pub record SubscriptionLaws {core : Core} (sync : CoreSubscriptions core) : Type 0 where
  pub stored : sync.Subscription → core.Query
  pub copied :
      (s : sync.SubscriptionSet) (n : Bytes)
      → sync.find_in_mutable n (sync.make_mutable_copy s) ≡ sync.find_in n s
  pub inserted :
      (k : Bytes) (q : core.Query) (m : sync.MutableSubscriptionSet) (n : Bytes)
      → Option.map stored (sync.find_in_mutable n (sync.insert_or_assign k q m))
        ≡ (if bytes_eq k n then some q else Option.map stored (sync.find_in_mutable n m))
  pub erased :
      (k : Bytes) (m : sync.MutableSubscriptionSet) (n : Bytes)
      → Option.map stored (sync.find_in_mutable n (sync.erase k m).0)
        ≡ (if bytes_eq k n then none else Option.map stored (sync.find_in_mutable n m))
  pub erases_none :
      (k : Bytes) (m : sync.MutableSubscriptionSet)
      → Option.map stored (sync.find_in_mutable k m) ≡ none
      → (sync.erase k m).1 ≡ false
  pub erases_some :
      (k : Bytes) (m : sync.MutableSubscriptionSet) (q : core.Query)
      → Option.map stored (sync.find_in_mutable k m) ≡ some q
      → (sync.erase k m).1 ≡ true
  pub cleared :
      (m : sync.MutableSubscriptionSet) (n : Bytes) → sync.find_in_mutable n (sync.clear m) ≡ none
  pub committed_set :
      (m : sync.MutableSubscriptionSet)
      → (next : sync.SubscriptionSet) × (sync.commit m ≡ some next)
        × ((n : Bytes) → sync.find_in n next ≡ sync.find_in_mutable n m)

module _ (core : Core) (laws : Laws core) where
  open core use {Query, Table}
  open laws use {Row, matches}

  -- The rows that the subscription of a name asks for.
  abbrev pub Wanted : Type 0
  Wanted = Bytes → Option (Row → Bool)

  abbrev pub wanted : Option Query → Option (Row → Bool)
  wanted q = Option.map (λ r o. matches r o) q

  -- The rows that an expression is true for, or all rows.
  unfoldable pub described_rows : Table → Option (Term core) → Row → Bool
  described_rows t none o = true
  described_rows t (some a) o = truth core laws t a o

  unfoldable pub put_wanted : Bytes → Option (Row → Bool) → Wanted → Wanted
  put_wanted k r w n = if bytes_eq k n then r else w n

  -- Whether the expressions of a call mean what they say (see Query/Laws.antt).
  unfoldable pub expressible : Option (Term core) → Bool
  expressible none = true
  expressible (some a) = self_contained core laws a && keeps_table core laws a

module _ (core : Core) (laws : Laws core) (sync : CoreSubscriptions core) where
  -- What a call should do; it fails for a name that is not there.
  unfoldable pub described : Change core sync → Wanted core laws → Option (Wanted core laws)
  described (add_it k t fn) w =
      some (put_wanted core laws k (some (described_rows core laws t fn)) w)
  described (update_it k t fn) w = elim (w k) [
    | none ↦ none
    | some r ↦ some (put_wanted core laws k (some (described_rows core laws t fn)) w)
  ]
  described (remove_it k) w = elim (w k) [
    | none ↦ none
    | some r ↦ some (put_wanted core laws k none w)
  ]
  described clear_all w = some (λ n. none)

  unfoldable pub described_all :
      List (Change core sync) → Wanted core laws → Option (Wanted core laws)
  described_all [] w = some w
  described_all (c ∷ cs) w = elim (described c w) [ none ↦ none | some v ↦ described_all cs v ]

  unfoldable pub change_expressible : Change core sync → Bool
  change_expressible (add_it k t fn) = expressible core laws fn
  change_expressible (update_it k t fn) = expressible core laws fn
  change_expressible (remove_it k) = true
  change_expressible clear_all = true
