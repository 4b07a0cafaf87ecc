-- ===== src/Database/Tests.antt =====
-- The theorems about databases at a concrete Realm and concrete lists.
use realm_cpp.Prelude.{
  ℕ, zero, suc, ◌+◌, ◌≤◌, ◌<◌, ◌≡◌, refl, ap, List, [], ◌∷◌, ◌++◌, Bool, true, false, Option, none,
  some, length, arith,
}
use realm_cpp.Containers.Objects.{Table}
use realm_cpp.Containers.Small.{numbers, numbers-Laws}
use realm_cpp.Database.{CoreRealm, CoreRealmLaws, write_all}
use realm_cpp.Database.Transactions.{
  write_all-data_after, write_all-commit_transaction, data_after, results_of,
}
use realm_cpp.Database.Links.{Embedded, set_links}
use realm_cpp.Database.Links.Appended.{set_links-new_objects, new_objects, IsAppended}
use realm_cpp.Database.Links.Gaps.{EmbeddedLaws, set_links-has_gap, is_none, has_gap}
use mathlib.Core.Option

-- The number that is committed, and the one of the transaction.
abbrev File : Type 0
File = ℕ × Option ℕ

abbrev begun : File → Option File
begun (c, none) = some (c, some c)
begun (c, some d) = none

abbrev done : File → Option File
done (c, none) = none
done (c, some d) = some (d, none)

abbrev shown : File → ℕ
shown (c, none) = c
shown (c, some d) = d

abbrev changed_to : ℕ → File → File
changed_to d (c, none) = (c, none)
changed_to d (c, some e) = (c, some d)

abbrev writing : File → Bool
writing (c, none) = false
writing (c, some d) = true

abbrev file : CoreRealm File ℕ
file = record {
  begin_transaction = begun;
  commit_transaction = done;
  visible = shown;
  replace = changed_to;
}

begun_outside :
    (r : File)
    → writing r ≡ false
    → (next : File) × (begun r ≡ some next)
      × (writing next ≡ true)
      × (next.0 ≡ r.0)
      × (shown next ≡ r.0)
begun_outside (c, none) e = ((c, some c), refl, refl, refl, refl)
begun_outside (c, some d) e = cc

begun_inside : (r : File) → writing r ≡ true → begun r ≡ none
begun_inside (c, none) e = cc
begun_inside (c, some d) e = refl

done_inside :
    (r : File)
    → writing r ≡ true
    → (next : File) × (done r ≡ some next) × (writing next ≡ false) × (next.0 ≡ shown r)
done_inside (c, none) e = cc
done_inside (c, some d) e = ((d, none), refl, refl, refl)

changed_inside :
    (r : File) (d : ℕ)
    → writing r ≡ true
    → (shown (changed_to d r) ≡ d) × (writing (changed_to d r) ≡ true) × ((changed_to d r).0 ≡ r.0)
changed_inside (c, none) d e = cc
changed_inside (c, some e) d h = (refl, refl, refl)

abbrev file-Laws : CoreRealmLaws file
file-Laws = record {
  in_write = writing;
  committed = λ r. r.0;
  begin_outside = begun_outside;
  begin_inside = begun_inside;
  commit_inside = done_inside;
  replace_inside = changed_inside;
}

abbrev adds : ℕ → ℕ → ℕ × Option ℕ
adds n d = (d + n, some d)

-- A block that adds 1 and throws.
abbrev throws : ℕ → ℕ × Option ℕ
throws d = (d + 1, none)

write_all-data_after_example :
    (writing (write_all file (adds 2 ∷ adds 3 ∷ []) (5, none)).0 ≡ false)
    × ((write_all file (adds 2 ∷ adds 3 ∷ []) (5, none)).0.0 ≡ data_after (adds 2 ∷ adds 3 ∷ []) 5)
    × ((write_all file (adds 2 ∷ adds 3 ∷ []) (5, none)).1 ≡ results_of (adds 2 ∷ adds 3 ∷ []) 5)
write_all-data_after_example =
    write_all-data_after file file-Laws (adds 2 ∷ adds 3 ∷ []) (5, none) refl
      ((λ d. (d, refl)), ((λ d. (d, refl)), tt))

write_all-commit_transaction_example :
    ((write_all file (throws ∷ adds 3 ∷ []) (5, none)).1 ≡ none ∷ none ∷ [])
    × ((write_all file (throws ∷ adds 3 ∷ []) (5, none)).0.0 ≡ 5)
    × ((next : File) × (done (write_all file (throws ∷ adds 3 ∷ []) (5, none)).0 ≡ some next)
        × (next.0 ≡ 6))
write_all-commit_transaction_example =
    write_all-commit_transaction file file-Laws throws (adds 3 ∷ []) (5, none) refl refl

-- A class without a primary key, whose objects are numbered.
abbrev numbered : Bool → Table ℕ ℕ ℕ
numbered is_embedded = record {
  has_primary_key = false;
  is_embedded = is_embedded;
  create_object = λ st. (suc st, st);
  create_object_with_primary_key = λ value st. (suc st, st);
  set_properties = λ key value st. st;
}

abbrev inserted_at : ℕ → ℕ → List ℕ → Option (List ℕ)
inserted_at zero k l = some (k ∷ l)
inserted_at (suc i) k [] = none
inserted_at (suc i) k (x ∷ l) = Option.map (λ r. x ∷ r) (inserted_at i k l)

abbrev listed : Embedded ℕ (List ℕ) ℕ
listed = record {
  create_and_insert = λ i st l. Option.map (λ r. ((suc st, r), st)) (inserted_at i st l);
  add_embedded = λ st l. ((suc st, l ++ st ∷ []), st);
  create_and_set = λ st. (suc st, st);
}

inserted_at-some :
    (i k : ℕ) (l : List ℕ)
    → i ≤ length l
    → (r : List ℕ) × (inserted_at i k l ≡ some r) × (length r ≡ suc (length l))
inserted_at-some zero k l h = (k ∷ l, refl, refl)
inserted_at-some (suc i) k [] h = absurd (omega arith)
inserted_at-some (suc i) k (x ∷ l) h =
    let r = inserted_at-some i k l (omega arith) in
    (x ∷ r.0, ap (Option.map (λ s. x ∷ s)) r.1, ap suc r.2)

inserted_at-none : (i k : ℕ) (l : List ℕ) → length l < i → inserted_at i k l ≡ none
inserted_at-none zero k l h = absurd (omega arith)
inserted_at-none (suc i) k [] h = refl
inserted_at-none (suc i) k (x ∷ l) h =
    ap (Option.map (λ s. x ∷ s)) (inserted_at-none i k l (omega arith))

abbrev listed-Laws : EmbeddedLaws numbers-Laws listed
listed-Laws = record {
  inserted = λ i st l h.
      let r = inserted_at-some i st l h in
      (((suc st, r.0), st), ap (Option.map (λ s. ((suc st, s), st))) r.1, r.2);
  beyond = λ i st l h. ap (Option.map (λ s. ((suc st, s), st))) (inserted_at-none i st l h);
}

abbrev pointers : List (Option ℕ)
pointers = some 4 ∷ none ∷ some 6 ∷ []

-- Objects of the value 0 cannot be set up.
abbrev sets : ℕ → ℕ → ℕ → Option ℕ
sets key zero st = none
sets key (suc v) st = some (st + v)

set_links-new_objects_example :
    IsAppended numbers numbers-Laws
      (numbered false)
      listed
      sets
      (1 ∷ [])
      (new_objects numbers numbers-Laws (numbered false) listed sets pointers 10)
      (set_links numbers (numbered false) listed sets 0 pointers 10 (1 ∷ []))
set_links-new_objects_example =
    set_links-new_objects numbers numbers-Laws (numbered false) listed sets refl 0 pointers 10
      (1 ∷ [])

abbrev always : ℕ → ℕ → ℕ → Option ℕ
always key v st = some (st + v)

set_links-has_gap_example :
    is_none (set_links numbers (numbered true) listed always 0 pointers 10 []) ≡ has_gap pointers
set_links-has_gap_example =
    set_links-has_gap numbers numbers-Laws (numbered true) listed always listed-Laws
      (λ key v st. (st + v, refl)) refl refl pointers 10 [] refl
