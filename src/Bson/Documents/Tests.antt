-- ===== src/Bson/Documents/Tests.antt =====
-- Copies of BSON documents in concrete programs.
use realm_cpp.Prelude.{
  ℕ, ◌≡◌, refl, sym, ◌∙◌, List, [], ◌∷◌, Option, none, some, ◌==◌, Bool-cases, inl, inr, ==_iff,
}
use realm_cpp.Prelude.Bytes.{Bytes, codes}
use realm_cpp.Containers.Core.{lookup}
use realm_cpp.Bson.Documents.{
  CoreDocument, DocumentStatement, declares, copies, inserts, Heap, share_step, share_all,
  store_all, make_shared, at_address, in_place, store_step,
}
use realm_cpp.Bson.Documents.Sharing.{held, held-share_all, AllSeparate, Separate}

abbrev Entries : Type 0
Entries = List (Bytes × ℕ)

abbrev found_in : Bytes → Entries → Option ℕ → Entries × ℕ
found_in key d none = ((key, 0) ∷ d, 0)
found_in key d (some v) = (d, v)

-- Documents with the latest entry in front; 0 stands for null.
abbrev documents : CoreDocument Entries ℕ
documents = record {
  no_entries = [];
  assign = λ key v d. (key, v) ∷ d;
  find = λ key d. found_in key d (lookup key d);
}

abbrev nothing : Heap Entries
nothing = record { m_document = λ x. none; documents = λ a. []; next = 0 }

-- document a; a.insert("k", 1); document b(a);
abbrev copied_last : List (DocumentStatement ℕ)
copied_last = declares 0 ∷ inserts 0 (codes "k") 1 ∷ copies 1 0 ∷ []

copied_last-AllSeparate : AllSeparate documents copied_last nothing
unfolding AllSeparate Separate share_step make_shared at_address
copied_last-AllSeparate = (
  tt,
  (
    (λ y a e f. elim (Bool-cases (y == 0)) [
      | inl t ↦ (==_iff y 0).0 t
      | inr t ↦ absurd (let c : none ≡ some a = sym (rw (t) refl) ∙ f in cc)
    ]),
    (tt, tt),
  ),
)

held-share_all_example :
    held (share_all documents copied_last nothing) ≡ store_all documents copied_last (λ x. none)
held-share_all_example =
    held-share_all documents copied_last nothing (λ y a e. absurd (cc)) copied_last-AllSeparate

-- document a; document b(a); a.insert("k", 1); and what b then holds.
abbrev copied_first : List (DocumentStatement ℕ)
copied_first = declares 0 ∷ copies 1 0 ∷ inserts 0 (codes "k") 1 ∷ []

shared_copy : held (share_all documents copied_first nothing) 1 ≡ some ((codes "k", 1) ∷ [])
unfolding share_all share_step make_shared at_address
shared_copy = refl

stored_copy : store_all documents copied_first (λ x. none) 1 ≡ some []
unfolding store_all store_step in_place
stored_copy = refl
