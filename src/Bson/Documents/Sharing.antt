-- ===== src/Bson/Documents/Sharing.antt =====
-- src/cpprealm/bson.cpp, bsoncxx::document: when the two builds of the library agree.
use realm_cpp.Prelude.{
  ℕ, inl, inr, ◌≡◌, ◌≢◌, ◌<◌, refl, ap, ◌∙◌, sym, List, [], ◌∷◌, false, Option, none, some, ◌==◌,
  arith, Bool-cases, Option-cases, ==_iff, ==_refl,
}
use realm_cpp.Bson.Documents.{
  CoreDocument, DocumentStatement, declares, copies, wraps, inserts, reads, set, Heap, make_shared,
  at_address, share_step, share_all, in_place, store_step, store_all,
}
use mathlib.Core.Option
use mathlib.Core.Path.{fun_ext}

not_same : (a b : ℕ) → a ≢ b → (a == b) ≡ false
not_same a b n = elim (Bool-cases (a == b)) [ inl e ↦ absurd (n ((==_iff a b).0 e)) | inr e ↦ e ]

some-inj {ℓ} : {A : Type ℓ} {a b : A} → some a ≡ some b → a ≡ b
some-inj e = cc

module _ {ℓ} {Doc : Type ℓ} where
  -- What a variable holds.
  abbrev pub held : Heap Doc → ℕ → Option Doc
  held h x = Option.map h.documents (h.m_document x)

  -- No other variable has the pointer of `x`.
  abbrev pub Sole : Heap Doc → ℕ → Type 0
  Sole h x = (y a : ℕ) → h.m_document x ≡ some a → h.m_document y ≡ some a → y ≡ x

  -- Every pointer is to a document that has been made.
  abbrev pub Made : Heap Doc → Type 0
  Made h = (y a : ℕ) → h.m_document y ≡ some a → a < h.next

  make_shared-held :
      (x y : ℕ) (d : Doc) (h : Heap Doc)
      → Made h
      → held (make_shared x d h) y ≡ set x (some d) (held h) y
  unfolding make_shared
  make_shared-held x y d h m = elim (Bool-cases (y == x)) [
    | inl e ↦ rw (e, ==_refl h.next) refl
    | inr e ↦ elim (Option-cases (h.m_document y)) [
      | inl n ↦ rw (e, n) refl
      | inr (a, n) ↦
          let below = m y a n in
          rw (e, n, not_same a h.next (λ same. absurd (omega (arith, below, same)))) refl
    ]
  ]

  make_shared-Made : (x : ℕ) (d : Doc) (h : Heap Doc) → Made h → Made (make_shared x d h)
  unfolding make_shared
  make_shared-Made x d h m y a e = elim (Bool-cases (y == x)) [
    | inl t ↦ let k : h.next ≡ a = some-inj (sym (rw (t) refl) ∙ e) in omega (arith, k)
    | inr t ↦ let k = m y a (sym (rw (t) refl) ∙ e) in omega (arith, k)
  ]

  at_address-held :
      (x y a : ℕ) (f : Doc → Doc) (h : Heap Doc)
      → Sole h x
      → h.m_document x ≡ some a
      → held (at_address a f h) y ≡ in_place x f (held h) y
  unfolding at_address in_place
  at_address-held x y a f h sole e = elim (Bool-cases (y == x)) [
    | inl t ↦ rw (in_place, e, t, (==_iff y x).0 t, e, ==_refl a) refl
    | inr t ↦ elim (Option-cases (h.m_document y)) [
      | inl n ↦ rw (in_place, e, t, n) refl
      | inr (b, n) ↦
          rw
            (
              in_place,
              e,
              t,
              n,
              not_same b a (λ same. absurd (
                  let w : y ≡ x = sole y b (e ∙ ap some (sym same)) n in
                  let c = sym t ∙ (==_iff y x).1 w in cc)),
            )
            refl
    ]
  ]

  map-set :
      (x : ℕ) (o : Option ℕ) (h : Heap Doc) (z : ℕ)
      → Option.map h.documents (set x o h.m_document z)
        ≡ set x (Option.map h.documents o) (held h) z
  map-set x o h z = elim (Bool-cases (z == x)) [ inl t ↦ rw (t) refl | inr t ↦ rw (t) refl ]

  set-Made :
      (x y a : ℕ) (h : Heap Doc)
      → Made h
      → h.m_document y ≡ some a
      → Made (record h { m_document = set x (some a) h.m_document })
  set-Made x y a h m e z b f = elim (Bool-cases (z == x)) [
    | inl t ↦
        let k : a ≡ b = some-inj (sym (rw (t) refl) ∙ f) in
        let below = m y a e in omega (arith, k, below)
    | inr t ↦ let below = m z b (sym (rw (t) refl) ∙ f) in omega (arith, below)
  ]

  at_address-Made : (a : ℕ) (f : Doc → Doc) (h : Heap Doc) → Made h → Made (at_address a f h)
  unfolding at_address
  at_address-Made a f h m = m

module _ {ℓ κ} {Doc : Type ℓ} {B : Type κ} (core : CoreDocument Doc B) where
  -- A statement that may change a document is on a variable that does not share it.
  unfoldable pub Separate : DocumentStatement B → Heap Doc → Type 0
  Separate (inserts x key v) h = Sole h x
  Separate (reads x key) h = Sole h x
  Separate (declares x) h = Unit
  Separate (copies x y) h = Unit
  Separate (wraps x y) h = Unit

  unfoldable pub AllSeparate : List (DocumentStatement B) → Heap Doc → Type 0
  AllSeparate [] h = Unit
  AllSeparate (s ∷ ss) h = Separate s h × AllSeparate ss (share_step core s h)

  -- A change through a pointer, or none where the variable is not declared.
  changed :
      (x : ℕ) (f : Doc → Doc) (h : Heap Doc)
      → Made h
      → Sole h x
      → let next : Heap Doc = elim (h.m_document x) [ none ↦ h | some a ↦ at_address a f h ] in
        (held next ≡ in_place x f (held h)) × Made next
  unfolding in_place
  changed x f h m sole = elim (Option-cases (h.m_document x)) [
    | inl e ↦ rw (e) (rw (in_place, e) refl, m)
    | inr (a, e) ↦ rw (e) (fun_ext (λ y. at_address-held x y a f h sole e), at_address-Made a f h m)
  ]

  copied :
      (x y : ℕ) (h : Heap Doc)
      → Made h
      → (held (share_step core (copies x y) h) ≡ store_step core (copies x y) (held h))
        × Made (share_step core (copies x y) h)
  unfolding share_step store_step
  copied x y h m = elim (Option-cases (h.m_document y)) [
    | inl e ↦ rw (share_step, store_step, e) (refl, m)
    | inr (a, e) ↦
        rw (share_step, store_step, e) (fun_ext (λ z. map-set x (some a) h z), set-Made x y a h m e)
  ]

  wrapped :
      (x y : ℕ) (h : Heap Doc)
      → Made h
      → (held (share_step core (wraps x y) h) ≡ store_step core (wraps x y) (held h))
        × Made (share_step core (wraps x y) h)
  unfolding share_step store_step
  wrapped x y h m = elim (Option-cases (h.m_document y)) [
    | inl e ↦ rw (share_step, store_step, e) (refl, m)
    | inr (a, e) ↦
        rw (share_step, store_step, e)
          (
            fun_ext (λ z. make_shared-held x z (h.documents a) h m),
            make_shared-Made x (h.documents a) h m,
          )
  ]

  step-held :
      (s : DocumentStatement B) (h : Heap Doc)
      → Made h
      → Separate s h
      → (held (share_step core s h) ≡ store_step core s (held h)) × Made (share_step core s h)
  unfolding share_step store_step Separate
  step-held (declares x) h m p = (
    fun_ext (λ z. make_shared-held x z core.no_entries h m),
    make_shared-Made x core.no_entries h m,
  )
  step-held (copies x y) h m p = copied x y h m
  step-held (wraps x y) h m p = wrapped x y h m
  step-held (inserts x key v) h m p = changed x (core.assign key v) h m p
  step-held (reads x key) h m p = changed x (λ d. (core.find key d).0) h m p

  -- The two builds leave the same documents in all variables, if no statement that may change a
  -- document, `insert`, `x[key] = v` or the reading of `x[key]`, is on a variable that shares its
  -- document with a copy.
  pub held-share_all :
      (ss : List (DocumentStatement B)) (h : Heap Doc)
      → Made h
      → AllSeparate ss h
      → held (share_all core ss h) ≡ store_all core ss (held h)
  unfolding share_all store_all AllSeparate
  held-share_all [] h m p = refl
  held-share_all (s ∷ ss) h m p =
      let r = step-held s h m p.0 in
      held-share_all ss (share_step core s h) r.1 p.1 ∙ ap (store_all core ss) r.0
