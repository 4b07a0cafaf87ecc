-- ===== src/Bson/Documents.antt =====
-- src/cpprealm/bson.cpp, bsoncxx::document: programs over variables that hold documents, in the two
-- builds of the library.
--
-- With CPPREALM_HAVE_GENERATED_BRIDGE_TYPES a document holds realm-core's document, otherwise a shared
-- pointer to one. realm-core's documents are a parameter: `assign` is `document[key] = v`, `find` is
-- `document[key]`, which adds a key that is absent.
pub mod Sharing
mod Tests
use realm_cpp.Prelude.{ℕ, suc, ◌≡◌, ◌<◌, List, [], ◌∷◌, Option, none, some, ◌==◌, if◌then◌else◌}
use realm_cpp.Prelude.Bytes.{Bytes}

pub record CoreDocument {ℓ κ} (Doc : Type ℓ) (B : Type κ) : Type (ℓ ⊔ κ) where
  pub no_entries : Doc
  pub assign : Bytes → B → Doc → Doc
  pub find : Bytes → Doc → Doc × B

-- A copy is by the copy constructor or by assignment. `inserts` is `insert` too. `wraps x y` makes the
-- document of a `bsoncxx` that was made from `y`.
pub data DocumentStatement {ℓ} (B : Type ℓ) : Type ℓ where
  declares : ℕ → DocumentStatement B
  copies wraps : ℕ → ℕ → DocumentStatement B
  inserts : ℕ → Bytes → B → DocumentStatement B
  reads : ℕ → Bytes → DocumentStatement B

abbrev pub set {ℓ} : {A : Type ℓ} → ℕ → A → (ℕ → A) → ℕ → A
set x a env y = if y == x then a else env y

-- The shared pointers of the variables, and the documents at the addresses below `next`.
pub record Heap {ℓ} (Doc : Type ℓ) : Type ℓ where
  pub m_document : ℕ → Option ℕ
  pub documents : ℕ → Doc
  pub next : ℕ

module _ {ℓ} {Doc : Type ℓ} where
  -- `std::make_shared<CoreDocument>(d)` for the variable `x`
  unfoldable pub make_shared : ℕ → Doc → Heap Doc → Heap Doc
  make_shared x d h = record {
    m_document = set x (some h.next) h.m_document;
    documents = set h.next d h.documents;
    next = suc h.next;
  }

  unfoldable pub at_address : ℕ → (Doc → Doc) → Heap Doc → Heap Doc
  at_address a f h = record h { documents = set a (f (h.documents a)) h.documents }

  unfoldable pub in_place : ℕ → (Doc → Doc) → (ℕ → Option Doc) → ℕ → Option Doc
  in_place x f env = elim (env x) [ none ↦ env | some d ↦ set x (some (f d)) env ]

module _ {ℓ κ} {Doc : Type ℓ} {B : Type κ} (core : CoreDocument Doc B) where
  open core use {no_entries, assign, find}

  -- A statement in the build with shared pointers; a variable that is not declared cannot be used.
  pub share_step : DocumentStatement B → Heap Doc → Heap Doc
  unfolding make_shared at_address
  share_step (declares x) h = make_shared x no_entries h
  share_step (copies x y) h = elim (h.m_document y) [
    | none ↦ h
    | some a ↦ record h { m_document = set x (some a) h.m_document }
  ]
  share_step (wraps x y) h = elim (h.m_document y) [
    | none ↦ h
    | some a ↦ make_shared x (h.documents a) h
  ]
  share_step (inserts x key v) h = elim (h.m_document x) [
    | none ↦ h
    | some a ↦ at_address a (assign key v) h
  ]
  share_step (reads x key) h = elim (h.m_document x) [
    | none ↦ h
    | some a ↦ at_address a (λ d. (find key d).0) h
  ]

  pub share_all : List (DocumentStatement B) → Heap Doc → Heap Doc
  share_all [] h = h
  share_all (s ∷ ss) h = share_all ss (share_step s h)

  -- The same in the build with generated bridge types.
  pub store_step : DocumentStatement B → (ℕ → Option Doc) → ℕ → Option Doc
  unfolding in_place
  store_step (declares x) env = set x (some no_entries) env
  store_step (copies x y) env = elim (env y) [ none ↦ env | some d ↦ set x (some d) env ]
  store_step (wraps x y) env = elim (env y) [ none ↦ env | some d ↦ set x (some d) env ]
  store_step (inserts x key v) env = in_place x (assign key v) env
  store_step (reads x key) env = in_place x (λ d. (find key d).0) env

  pub store_all : List (DocumentStatement B) → (ℕ → Option Doc) → ℕ → Option Doc
  store_all [] env = env
  store_all (s ∷ ss) env = store_all ss (store_step s env)
