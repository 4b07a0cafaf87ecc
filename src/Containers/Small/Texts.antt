-- ===== src/Containers/Small/Texts.antt =====
-- A small set of texts for the tests: the keys of the small dictionary.
use realm_cpp.Prelude.{
  ℕ, zero, suc, inl, inr, ◌≡◌, refl, ap, ◌∙◌, sym, List, [], ◌∷◌, Bool, true, false, not, ◌||◌,
  ◌&&◌, Option, none, some, if◌then◌else◌, length, get_elem?, Bool-cases, Option-cases, map,
  length-map,
}
use realm_cpp.Prelude.Bytes.{Bytes, bytes_eq, bytes_eq_iff}
use realm_cpp.Containers.Core.{CoreSet, CoreSetLaws, lookup}
use realm_cpp.Containers.Map.Memory.{Distinct}
use realm_cpp.Containers.Vector.Memory.{get_elem?-map}
use realm_cpp.Containers.Small.{
  Keyed, inserted, removed, or_absent, index, index-some, index-none, one_index, get-inserted,
  lookup-without,
}
use mathlib.Core.Option

-- A set of texts: the keys.
abbrev pub is_there : Option ℕ → Bool
is_there none = false
is_there (some v) = true

abbrev pub with_key : Bytes → Keyed → Option ℕ → Keyed × (ℕ × Bool)
with_key u l none = (inserted u 0 l, (0, true))
with_key u l (some v) = (l, (or_absent (index u l.0), false))

unfoldable pub no_keys : Keyed
unfolding Distinct
no_keys = ([], tt)

abbrev pub texts : CoreSet Keyed Bytes
texts = record {
  size = λ l. length l.0;
  get_any = λ l i. get_elem? (map (λ e. e.0) l.0) i;
  insert = λ u l. with_key u l (lookup u l.0);
  remove = removed;
  remove_all = λ l. no_keys;
  find = λ u l. or_absent (index u l.0);
}

keyed_at :
    (es : List (Bytes × ℕ)) (i : ℕ) (u : Bytes)
    → get_elem? (map (λ e. e.0) es) i ≡ some u
    → (p : Bytes × ℕ) × (get_elem? es i ≡ some p) × (p.0 ≡ u)
keyed_at [] i u e = cc
keyed_at (p ∷ es) zero u e = (p, refl, cc)
keyed_at (p ∷ es) (suc i) u e = keyed_at es i u e

text_index :
    (l : Keyed) (u : Bytes) (i j : ℕ)
    → get_elem? (map (λ e. e.0) l.0) i ≡ some u
    → get_elem? (map (λ e. e.0) l.0) j ≡ some u
    → i ≡ j
text_index l u i j f g =
    let p = keyed_at l.0 i u f in
    let q = keyed_at l.0 j u g in one_index l.0 i j p.0 q.0 l.1 p.1 q.1 (p.2 ∙ sym q.2)

text_found :
    (l : Keyed) (u : Bytes) (v : ℕ)
    → lookup u l.0 ≡ some v
    → get_elem? (map (λ e. e.0) l.0) (or_absent (index u l.0)) ≡ some u
text_found l u v e =
    let r = index-some u l.0 v e in
    ap (λ o. get_elem? (map (λ e. e.0) l.0) (or_absent o)) r.1
    ∙ get_elem?-map (λ e. e.0) l.0 r.0
    ∙ ap (Option.map (λ e. e.0)) r.2

is_there-if :
    (b : Bool) (v : ℕ) (o : Option ℕ) → is_there (if b then some v else o) ≡ (b || is_there o)
is_there-if true v o = refl
is_there-if false v o = refl

none-if : (b : Bool) (o : Option ℕ) → is_there (if b then none else o) ≡ (not b && is_there o)
none-if true o = refl
none-if false o = refl

-- What `with_key` gives, whether the text is there or not.
with_key-lem :
    (l : Keyed) (u : Bytes) (o : Option ℕ)
    → lookup u l.0 ≡ o
    → (get_elem? (map (λ e. e.0) (with_key u l o).0.0) (with_key u l o).1.0 ≡ some u)
      × ((with_key u l o).1.1 ≡ not (is_there o))
      × ((v : Bytes)
          → is_there (lookup v (with_key u l o).0.0) ≡ (bytes_eq v u || is_there (lookup v l.0)))
unfolding inserted
with_key-lem l u none e = (
  refl,
  refl,
  λ v. ap is_there (get-inserted l u v 0) ∙ is_there-if (bytes_eq v u) 0 (lookup v l.0),
)
with_key-lem l u (some w) e = (
  text_found l u w e,
  refl,
  λ v. elim (Bool-cases (bytes_eq v u)) [
    | inl b ↦
        let k : lookup v l.0 ≡ some w = ap (λ k. lookup k l.0) ((bytes_eq_iff v u).0 b) ∙ e in
        rw (b) (ap is_there k)
    | inr b ↦ rw (b) refl
  ],
)

pub texts-Laws : CoreSetLaws texts
unfolding lookup no_keys
texts-Laws = record {
  view = λ l. map (λ e. e.0) l.0;
  has = λ l u. is_there (lookup u l.0);
  same = λ u v. bytes_eq v u;
  same_refl = λ u. (bytes_eq_iff u u).1 refl;
  size_view = λ l. sym (length-map l.0 (λ e. e.0));
  get_view = λ l i. refl;
  one_index = λ l u i j f g. text_index l u i j f g;
  find_has = λ l u h. elim (Option-cases (lookup u l.0)) [
    | inl e ↦ absurd (let c = sym (ap is_there e) ∙ h in cc)
    | inr (v, e) ↦ text_found l u v e
  ];
  find_absent = λ l u h. elim (Option-cases (lookup u l.0)) [
    | inl e ↦ ap or_absent (index-none u l.0 e)
    | inr (v, e) ↦ absurd (let c = sym (ap is_there e) ∙ h in cc)
  ];
  insert_index = λ l u. (with_key-lem l u (lookup u l.0) refl).0;
  insert_new = λ l u. (with_key-lem l u (lookup u l.0) refl).1;
  has_insert = λ l u v. (with_key-lem l u (lookup u l.0) refl).2 v;
  has_remove =
      λ l u v. ap is_there (lookup-without u v l.0) ∙ none-if (bytes_eq v u) (lookup v l.0);
  has_remove_all = λ l u. refl;
}
