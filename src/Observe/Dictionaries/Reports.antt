-- ===== src/Observe/Dictionaries/Reports.antt =====
-- src/cpprealm/internal/bridge/dictionary.cpp: what the handler of a dictionary is told.
use realm_cpp.Prelude.{
  ◌≡◌, refl, sym, ap, ◌∙◌, List, [], ◌∷◌, ◌++◌, append-nil, append_assoc, map, Bool, true, false,
  not, ◌&&◌,
}
use realm_cpp.Prelude.Bytes.{Bytes}
use realm_cpp.Observe.Dictionaries.{
  DictionaryChangeSet, DictionaryChange, no_keys, empty_change, default_change, notify, notify_all,
}

module _ {ℓ} {Key : Type ℓ} (get_string : Key → Bytes) where
  -- Whether a change set lists a key.
  unfoldable pub lists_key : DictionaryChangeSet Key → Bool
  lists_key c = not (no_keys c.deletions && (no_keys c.insertions && no_keys c.modifications))

  -- The keys of a change set, with its flag if it lists one.
  unfoldable pub keys_told : DictionaryChangeSet Key → DictionaryChange
  keys_told c = record {
    insertions = map get_string c.insertions;
    modifications = map get_string c.modifications;
    deletions = map get_string c.deletions;
    collection_root_was_deleted = c.collection_root_was_deleted && lists_key c;
  }

  told_by :
      (deletions insertions modifications : List Key) (flag : Bool) (told : List DictionaryChange)
      → let c : DictionaryChangeSet Key = record {
        deletions = deletions;
        insertions = insertions;
        modifications = modifications;
        collection_root_was_deleted = flag;
      } in
        (notify get_string c told ≡ told ++ keys_told c ∷ [])
        × (empty_change (keys_told c) ≡ not (lists_key c))
  unfolding notify keys_told lists_key no_keys default_change empty_change
  told_by [] [] [] true told = (refl, refl)
  told_by [] [] [] false told = (refl, refl)
  told_by [] [] (m ∷ ms) true told = (refl, refl)
  told_by [] [] (m ∷ ms) false told = (refl, refl)
  told_by [] (i ∷ is) ms true told = (refl, refl)
  told_by [] (i ∷ is) ms false told = (refl, refl)
  told_by (d ∷ ds) is ms true told = (refl, refl)
  told_by (d ∷ ds) is ms false told = (refl, refl)

  told_of :
      (c : DictionaryChangeSet Key) (told : List DictionaryChange)
      → (notify get_string c told ≡ told ++ keys_told c ∷ [])
        × (empty_change (keys_told c) ≡ not (lists_key c))
  told_of c told =
      told_by c.deletions c.insertions c.modifications c.collection_root_was_deleted told

  -- The handler of a dictionary is told of every change set, in order, with its keys; that the owner
  -- of the dictionary was deleted only where the change set lists a key. So it is told an empty change
  -- exactly where no key is listed, whether the owner was deleted or not.
  pub notify_all-keys_told :
      (cs : List (DictionaryChangeSet Key)) (told : List DictionaryChange)
      → (notify_all get_string cs told ≡ told ++ map keys_told cs)
        × ((c : DictionaryChangeSet Key) → empty_change (keys_told c) ≡ not (lists_key c))
  unfolding notify_all
  notify_all-keys_told [] told = (sym (append-nil told), λ c. (told_of c []).1)
  notify_all-keys_told (c ∷ cs) told = (
    (notify_all-keys_told cs (notify get_string c told)).0
        ∙ ap (λ l. l ++ map keys_told cs) (told_of c told).0
        ∙ append_assoc told (keys_told c ∷ []) (map keys_told cs),
    λ d. (told_of d []).1,
  )
