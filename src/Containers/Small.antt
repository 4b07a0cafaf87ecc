-- ===== src/Containers/Small.antt =====
-- Small collections for the tests: lists of numbers, and entries without a repeated key.
pub mod Texts
use realm_cpp.Prelude.{
  ℕ, zero, suc, inl, inr, ◌≡◌, ◌≢◌, refl, ap, ◌∙◌, sym, subst, List, [], ◌∷◌, ◌++◌, Bool, true,
  false, not, ◌||◌, ◌&&◌, Option, none, some, if◌then◌else◌, length, get_elem?, arith, Bool-cases,
  Option-cases, map,
}
use realm_cpp.Prelude.Bytes.{Bytes, bytes_eq, bytes_eq_iff}
use realm_cpp.Containers.Core.{
  CoreList, CoreListLaws, CoreSet, CoreSetLaws, CoreDictionary, CoreDictionaryLaws,
  not_in_collection, lookup, remove_at, replace_at,
}
use realm_cpp.Containers.Map.Memory.{Distinct, lookup-here, lookup-there}
use realm_cpp.Containers.Found.{CoreResults}
use realm_cpp.Containers.Found.Bounds.{CoreResultsLaws}
use mathlib.Core.Option

abbrev pub numbers : CoreList (List ℕ) ℕ
numbers = record {
  size = length;
  get = get_elem?;
  add = λ u l. l ++ u ∷ [];
  set = λ i u l. replace_at i u l;
  remove = λ i l. remove_at i l;
  remove_all = λ l. [];
}

pub map-id {ℓ} : {A : Type ℓ} (o : Option A) → Option.map (λ a. a) o ≡ o
map-id none = refl
map-id (some a) = refl

abbrev pub numbers-Laws : CoreListLaws numbers
numbers-Laws = record {
  view = λ l. l;
  size_view = λ l. refl;
  get_view = λ l i. refl;
  add_view = λ u l. refl;
  set_view = λ i u l. map-id (replace_at i u l);
  remove_view = λ i l. map-id (remove_at i l);
  remove_all_view = λ l. refl;
}

abbrev pub found : CoreResults (List ℕ) ℕ
found = record { size = length; get = get_elem? }

abbrev pub found-Laws : CoreResultsLaws found
found-Laws = record { view = λ l. l; size_view = λ l. refl; get_view = λ l i h. refl }

module _ {T : Type 0} where
  unfoldable pub without : Bytes → List (Bytes × T) → List (Bytes × T)
  without key [] = []
  without key (e ∷ es) = let rest = without key es in if bytes_eq e.0 key then rest else e ∷ rest

  unfoldable pub index : Bytes → List (Bytes × T) → Option ℕ
  index key [] = none
  index key (e ∷ es) =
      let rest = index key es in if bytes_eq e.0 key then some zero else Option.map suc rest

  pub lookup-without :
      (key other : Bytes) (es : List (Bytes × T))
      → lookup other (without key es) ≡ (if bytes_eq other key then none else lookup other es)
  unfolding lookup without
  lookup-without key other [] = ground arith
  lookup-without key other (e ∷ es) = ground (
    arith,
    lookup-without key other es,
    bytes_eq_iff e.0 key,
    bytes_eq_iff e.0 other,
    bytes_eq_iff other key,
  )

  pub without-Distinct :
      (key : Bytes) (es : List (Bytes × T)) → Distinct es → Distinct (without key es)
  unfolding without Distinct
  without-Distinct key [] d = tt
  without-Distinct key (e ∷ es) d = elim (Bool-cases (bytes_eq e.0 key)) [
    | inl b ↦ rw (without, b) (without-Distinct key es d.1)
    | inr b ↦ rw (without, b) (lookup-without key e.0 es ∙ rw (b) d.0, without-Distinct key es d.1)
  ]

  pub index-some :
      (key : Bytes) (es : List (Bytes × T)) (v : T)
      → lookup key es ≡ some v
      → (i : ℕ) × (index key es ≡ some i) × (get_elem? es i ≡ some (key, v))
  unfolding lookup index
  index-some key [] v e = cc
  index-some key (p ∷ es) v e = elim (Bool-cases (bytes_eq p.0 key)) [
    | inl b ↦
        let same : some p.1 ≡ some v = sym (lookup-here key p es b) ∙ e in
        let k : p.0 ≡ key = (bytes_eq_iff p.0 key).0 b in (zero, rw (index, b) refl, cc)
    | inr b ↦
        let r = index-some key es v (sym (lookup-there key p es b) ∙ e) in
        (suc r.0, rw (index, b) (ap (Option.map suc) r.1), r.2)
  ]

  pub index-none :
      (key : Bytes) (es : List (Bytes × T)) → lookup key es ≡ none → index key es ≡ none
  unfolding lookup index
  index-none key [] e = refl
  index-none key (p ∷ es) e = elim (Bool-cases (bytes_eq p.0 key)) [
    | inl b ↦ absurd (let c = sym (lookup-here key p es b) ∙ e in cc)
    | inr b ↦
        rw (index, b) (ap (Option.map suc) (index-none key es (sym (lookup-there key p es b) ∙ e)))
  ]

  lookup-present :
      (key : Bytes) (es : List (Bytes × T)) (j : ℕ) (q : Bytes × T)
      → get_elem? es j ≡ some q
      → q.0 ≡ key
      → lookup key es ≢ none
  lookup-present key [] j q g h n = cc
  lookup-present key (e ∷ es) zero q g h n =
      let k : e.0 ≡ key = cc in
      let c = sym (lookup-here key e es ((bytes_eq_iff e.0 key).1 k)) ∙ n in cc
  lookup-present key (e ∷ es) (suc j) q g h n = elim (Bool-cases (bytes_eq e.0 key)) [
    | inl b ↦ let c = sym (lookup-here key e es b) ∙ n in cc
    | inr b ↦ lookup-present key es j q g h (sym (lookup-there key e es b) ∙ n)
  ]

  pub one_index :
      (es : List (Bytes × T)) (i j : ℕ) (p q : Bytes × T)
      → Distinct es
      → get_elem? es i ≡ some p
      → get_elem? es j ≡ some q
      → p.0 ≡ q.0
      → i ≡ j
  unfolding Distinct lookup
  one_index [] i j p q d f g h = cc
  one_index (e ∷ es) zero zero p q d f g h = refl
  one_index (e ∷ es) zero (suc j) p q d f g h =
      absurd (let k : q.0 ≡ e.0 = cc in lookup-present e.0 es j q g k d.0)
  one_index (e ∷ es) (suc i) zero p q d f g h =
      absurd (let k : p.0 ≡ e.0 = cc in lookup-present e.0 es i p f k d.0)
  one_index (e ∷ es) (suc i) (suc j) p q d f g h = ap suc (one_index es i j p q d.1 f g h)

abbrev pub Keyed : Type 0
Keyed = (es : List (Bytes × ℕ)) × Distinct es

abbrev pub or_absent : Option ℕ → ℕ
or_absent none = not_in_collection
or_absent (some i) = i

-- Without the key, and with it in front.
abbrev pub removed : Bytes → Keyed → Keyed
removed key l = (without key l.0, without-Distinct key l.0 l.1)

pub if_refl : (key : Bytes) (o : Option ℕ) → (if bytes_eq key key then none else o) ≡ none
if_refl key o = rw ((bytes_eq_iff key key).1 refl) refl

unfoldable pub inserted : Bytes → ℕ → Keyed → Keyed
unfolding Distinct
inserted key u l = (
  (key, u) ∷ without key l.0,
  (lookup-without key key l.0 ∙ if_refl key (lookup key l.0), without-Distinct key l.0 l.1),
)

abbrev pub erased : Bytes → Keyed → Option ℕ → Option Keyed
erased key l none = none
erased key l (some u) = some (removed key l)

abbrev pub dictionary : CoreDictionary Keyed ℕ
dictionary = record {
  size = λ l. length l.0;
  get_pair = λ l i. get_elem? l.0 i;
  find_any_key = λ key l. or_absent (index key l.0);
  get = λ key l. lookup key l.0;
  insert = inserted;
  erase = λ key l. erased key l (lookup key l.0);
}

pub get-inserted :
    (l : Keyed) (key other : Bytes) (u : ℕ)
    → lookup other (inserted key u l).0 ≡ (if bytes_eq other key then some u else lookup other l.0)
unfolding lookup inserted
get-inserted l key other u =
    ground (arith, lookup-without key other l.0, bytes_eq_iff key other, bytes_eq_iff other key)

abbrev pub dictionary-Laws : CoreDictionaryLaws dictionary
dictionary-Laws = record {
  view = λ l. l.0;
  size_view = λ l. refl;
  get_pair_view = λ l i. refl;
  get_view = λ l key. refl;
  distinct = λ l i j p q f g h. one_index l.0 i j p q l.1 f g h;
  find_present = λ l key u e. let r = index-some key l.0 u e in rw (r.1) r.2;
  find_absent = λ l key e. ap or_absent (index-none key l.0 e);
  get_insert = get-inserted;
  erase_absent = λ l key e. ap (erased key l) e;
  erase_present =
      λ l key u e. (removed key l, ap (erased key l) e, λ other. lookup-without key other l.0);
}
