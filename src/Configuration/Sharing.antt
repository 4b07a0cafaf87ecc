-- ===== src/Configuration/Sharing.antt =====
-- src/cpprealm/internal/bridge/realm.cpp: what copies of a configuration share.
use realm_cpp.Prelude.{
  ℕ, ◌≡◌, ◌≢◌, refl, sym, inl, inr, List, true, false, some, none, ◌==◌, ==_iff, ==_refl,
  Bool-cases, arith,
}
use realm_cpp.Prelude.Attempts.{completed}
use realm_cpp.Schema.{CoreSchema}
use realm_cpp.Configuration.{
  Store, put_at, allocate, copy_config, modify, with_schemas, opens, run_call, RealmSettings,
  setting,
}
use realm_cpp.Configuration.Values.{view, Unique}

apart : (x y : ℕ) → x ≢ y → (y == x) ≡ false
apart x y n = elim (Bool-cases (y == x)) [ inl t ↦ absurd (n (sym ((==_iff y x).0 t))) | inr t ↦ t ]

-- The settings of a configuration with a schema, all others as they were.
abbrev pub described_by : List CoreSchema → RealmSettings → RealmSettings
described_by schemas c = record c { schema = some schemas }

with_schemas-described_by :
    (schemas : List CoreSchema) (c : RealmSettings)
    → c.schema ≡ none
    → with_schemas schemas c ≡ described_by schemas c
unfolding with_schemas setting
with_schemas-described_by schemas c e = rw (with_schemas, e) refl

-- Opening a database with a configuration that has no schema gives the database's own copy of it
-- the schema of all classes, and writes that schema into the caller's configuration too where
-- copies share a pointer; in the other build the caller's configuration stays as it is.
pub opens-with_schemas :
    (x config a : ℕ) (schemas : List CoreSchema) (st : Store)
    → Unique st
    → x ≢ config
    → st.handle config ≡ some a
    → (st.configs a).schema ≡ none
    → ((next : Store) × (run_call false (opens x config schemas) st ≡ completed next)
        × ((view next).vars x ≡ some (described_by schemas (st.configs a)))
        × ((view next).vars config ≡ some (described_by schemas (st.configs a))))
      × ((next : Store) × (run_call true (opens x config schemas) st ≡ completed next)
          × ((view next).vars x ≡ some (described_by schemas (st.configs a)))
          × ((view next).vars config ≡ some (st.configs a)))
unfolding run_call copy_config modify allocate
opens-with_schemas x config a schemas st u n e absent =
    let s = apart x config n in
    let l = u.below config a e in
    let f : (a == st.next_free) ≡ false = ground (arith, l) in
    let d = with_schemas-described_by schemas (st.configs a) absent in
    (
      (
        record st {
          handle = put_at x (some a) st.handle;
          configs = put_at a (with_schemas schemas (st.configs a)) st.configs;
        },
        rw (run_call, copy_config, modify, e, ==_refl x) refl,
        rw (==_refl x, ==_refl a, d) refl,
        rw (s, e, ==_refl a, d) refl,
      ),
      (
        record (allocate x (st.configs a) st) {
          configs =
              put_at st.next_free (with_schemas schemas (st.configs a))
                (put_at st.next_free (st.configs a) st.configs);
        },
        rw (run_call, copy_config, modify, e, ==_refl x, ==_refl st.next_free) refl,
        rw (==_refl x, ==_refl st.next_free, d) refl,
        rw (s, e, f) refl,
      ),
    )
