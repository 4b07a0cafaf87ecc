-- ===== src/Observe/Collections/Reports.antt =====
-- include/cpprealm/observation.hpp, include/cpprealm/results.hpp: what the handlers of collections and
-- of query results are told.
use realm_cpp.Prelude.{
  ◌≡◌, refl, sym, ap, List, [], ◌∷◌, ◌++◌, append-nil, append_assoc, map, true, false, not, ◌&&◌,
  ◌||◌, if◌then◌else◌, All, arith,
}
use realm_cpp.Observe.{ChangeSet, no_items}
use realm_cpp.Observe.Collections.{
  CollectionChange, CollectionCallback, no_change, to_change, after_collection, run_collection,
  ResultsCallback, tagged, after_results, run_results,
}

-- What a change set reports, if anything: nothing only where the collection's owner was deleted while
-- the collection was empty.
unfoldable pub reported : ChangeSet → List CollectionChange
reported c =
    if c.empty || not (c.collection_root_was_deleted && no_items c.deletions)
    then to_change c ∷ []
    else []

unfoldable pub reports : List ChangeSet → List CollectionChange
reports [] = []
reports (c ∷ cs) = reported c ++ reports cs

-- realm-core: an empty change set has no indices.
abbrev pub Consistent : ChangeSet → Type 0
Consistent c = c.empty ≡ true → (c.deletions ≡ []) × (c.insertions ≡ []) × (c.modifications ≡ [])

to_change-empty : (c : ChangeSet) → c.empty ≡ true → Consistent c → to_change c ≡ no_change
to_change-empty c e h = let k = h e in simp (k.0, k.1, k.2)

after_collection_handled :
    (c : ChangeSet) (h : List CollectionChange)
    → Consistent c
    → after_collection c (record { ignore_changes = false; handled = h })
      ≡ record { ignore_changes = false; handled = h ++ reported c }
unfolding after_collection reported
after_collection_handled c h k = ground (arith, append-nil h, k, to_change-empty c)

run_collection_handled :
    (cs : List ChangeSet) (h : List CollectionChange)
    → All Consistent cs
    → run_collection cs (record { ignore_changes = false; handled = h })
      ≡ record { ignore_changes = false; handled = h ++ reports cs }
unfolding run_collection reports
run_collection_handled [] h k =
    ap (λ (l : List CollectionChange). record { ignore_changes = false; handled = l })
      (sym (append-nil h))
run_collection_handled (c ∷ cs) h k =
    rw (after_collection_handled c h k.0, run_collection_handled cs (h ++ reported c) k.1)
      (rw append_assoc)

-- The handler of a collection is called once for every change set, with its indices, except for one
-- that says that the owner was deleted and lists no deletions. Where the initial notification is
-- ignored, the first call, whatever its change set, has no indices.
pub run_collection-reports :
    (c : ChangeSet) (cs : List ChangeSet) (h : List CollectionChange)
    → All Consistent (c ∷ cs)
    → (run_collection (c ∷ cs) (record { ignore_changes = false; handled = h })
        ≡ record { ignore_changes = false; handled = h ++ reports (c ∷ cs) })
      × (run_collection (c ∷ cs) (record { ignore_changes = true; handled = h })
          ≡ record { ignore_changes = false; handled = h ++ (no_change ∷ reports cs) })
unfolding run_collection after_collection
run_collection-reports c cs h k = (
  run_collection_handled (c ∷ cs) h k,
  rw (run_collection_handled cs (h ++ no_change ∷ []) k.1) (rw append_assoc),
)

abbrev pub Unflagged : CollectionChange → Type 0
Unflagged c = c.collection_root_was_deleted ≡ false

All-append :
    (xs ys : List CollectionChange) → All Unflagged xs → All Unflagged ys → All Unflagged (xs ++ ys)
All-append [] ys a b = b
All-append (x ∷ xs) ys a b = (a.0, All-append xs ys a.1 b)

-- No handler of a collection is ever told that the collection's owner was deleted: the flag for it is
-- false in every call.
pub run_collection-Unflagged :
    (cs : List ChangeSet) (s : CollectionCallback)
    → All Unflagged s.handled
    → All Unflagged (run_collection cs s).handled
unfolding run_collection after_collection
run_collection-Unflagged [] s a = a
run_collection-Unflagged (c ∷ cs) s a = run_collection-Unflagged cs (after_collection c s) (
    ground (
      arith,
      a,
      All-append s.handled (no_change ∷ []) a (refl, tt),
      All-append s.handled (to_change c ∷ []) a (refl, tt),
    ))

module _ {ℓ} {Derived : Type ℓ} where
  abbrev pub as_results : Derived → CollectionCallback → ResultsCallback Derived
  as_results d s = record {
    collection = d;
    ignore_changes = s.ignore_changes;
    handled = map (tagged d) s.handled;
  }

  map-append :
      (d : Derived) (xs ys : List CollectionChange)
      → map (tagged d) (xs ++ ys) ≡ map (tagged d) xs ++ map (tagged d) ys
  map-append d [] ys = refl
  map-append d (x ∷ xs) ys = ap (◌∷◌ (tagged d x)) (map-append d xs ys)

  after_results-after_collection :
      (d : Derived) (c : ChangeSet) (s : CollectionCallback)
      → after_results c (as_results d s) ≡ as_results d (after_collection c s)
  unfolding after_results after_collection
  after_results-after_collection d c s =
      ground
        (arith, map-append d s.handled (no_change ∷ []), map-append d s.handled (to_change c ∷ []))

  -- For every sequence of change sets the handler of query results is called exactly as that of a
  -- collection is, with the results beside.
  pub run_results-run_collection :
      (d : Derived) (cs : List ChangeSet) (s : CollectionCallback)
      → run_results cs (as_results d s) ≡ as_results d (run_collection cs s)
  unfolding run_results run_collection
  run_results-run_collection d [] s = refl
  run_results-run_collection d (c ∷ cs) s =
      rw (after_results-after_collection d c s)
        (run_results-run_collection d cs (after_collection c s))
