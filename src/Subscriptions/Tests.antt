-- ===== src/Subscriptions/Tests.antt =====
-- The theorem about subscriptions at concrete sets: association lists from names to queries.
use realm_cpp.Prelude.{
  ℕ, ◌≡◌, refl, List, [], ◌∷◌, Bool, true, false, Option, none, some, if◌then◌else◌,
}
use realm_cpp.Prelude.Bytes.{Bytes, bytes_eq, codes}
use realm_cpp.Query.{Core, Comparison, compares, atom}
use realm_cpp.Query.Small.{small}
use realm_cpp.Prelude.Attempts.{completed}
use realm_cpp.Subscriptions.{
  CoreSubscriptions, Change, add_it, update_it, remove_it, change_all, update_set,
}
use mathlib.Core.Option

abbrev SmallQuery : Type 0
SmallQuery = Core.Query small

-- The query of a name, none if there is no subscription.
abbrev Named : Type 0
Named = Bytes → Option SmallQuery

abbrev put_at : Bytes → Option SmallQuery → Named → Named
put_at k q m n = if bytes_eq k n then q else m n

abbrev has_query : Option SmallQuery → Bool
has_query none = false
has_query (some q) = true

abbrev subscriptions : CoreSubscriptions small
subscriptions = record {
  SubscriptionSet = Named;
  MutableSubscriptionSet = Named;
  Subscription = SmallQuery;
  Identifier = ℕ;
  to_string = λ i. i ∷ [];
  id_of = λ q. q.0;
  name_of = λ q. none;
  created_time = λ q. 0;
  updated_time = λ q. 0;
  query_text = λ q. [];
  class_name = λ q. q.0 ∷ [];
  find_in = λ n s. s n;
  make_mutable_copy = λ s. s;
  find_in_mutable = λ n m. m n;
  insert_or_assign = λ k q m. put_at k (some q) m;
  erase = λ k m. (put_at k none m, has_query (m k));
  clear = λ m n. none;
  commit = λ m. some m;
  state_change_notification = λ st s. some st;
}

-- A set with a subscription `old` for all rows of the table 2.
abbrev old_set : Named
old_set = put_at (codes "old") (some (2, λ o. true)) (λ n. none)

-- `update_subscription("old", c0 > 3)`, then `add("new")`.
abbrev changes : List (Change small subscriptions)
changes =
    update_it (codes "old") 2 (some (atom [] (compares Comparison.greater 0 (some 3))))
    ∷ add_it (codes "new") 2 none
    ∷ []

-- A name without a subscription cannot be removed, and the set stays.
remove_missing :
    update_set small subscriptions
      (change_all small subscriptions (remove_it (codes "new") ∷ []))
      old_set
    ≡ completed (old_set, none)
unfolding update_set change_all bytes_eq
remove_missing = refl
