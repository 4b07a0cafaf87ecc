-- ===== src/Database/Transactions.antt =====
-- include/cpprealm/db.hpp: what `write` commits, and what an exception out of its block leaves behind.
use realm_cpp.Prelude.{
  ◌≡◌, refl, sym, ap, ◌∙◌, subst, List, [], ◌∷◌, map, true, false, Option, none, some, All,
}
use realm_cpp.Database.{CoreRealm, CoreRealmLaws, call_block, commit_result, write, write_all}

module _ {κ ι} {D : Type κ} {V : Type ι} where
  -- A block that returns, whatever the data.
  abbrev pub Returns : (D → D × Option V) → Type (κ ⊔ ι)
  Returns fn = (d : D) → (v : V) × ((fn d).1 ≡ some v)

  -- The data after blocks that are run one behind the other.
  unfoldable pub data_after : List (D → D × Option V) → D → D
  data_after [] d = d
  data_after (fn ∷ fns) d = data_after fns (fn d).0

  -- The results of the blocks then.
  unfoldable pub results_of : List (D → D × Option V) → D → List (Option V)
  results_of [] d = []
  results_of (fn ∷ fns) d = (fn d).1 ∷ results_of fns (fn d).0

module _ {ℓ κ ι} {R : Type ℓ} {D : Type κ} {V : Type ι} (core : CoreRealm R D)
    (laws : CoreRealmLaws core) where
  open core use {begin_transaction, commit_transaction, visible, replace}
  open laws use {in_write, committed, begin_outside, begin_inside, commit_inside, replace_inside}

  write-outside :
      (fn : D → D × Option V) (v : V) (r : R)
      → in_write r ≡ false
      → (fn (committed r)).1 ≡ some v
      → (in_write (write core fn r).0 ≡ false)
        × (committed (write core fn r).0 ≡ (fn (committed r)).0)
        × ((write core fn r).1 ≡ some v)
  unfolding write call_block commit_result
  write-outside fn v r e f =
      let b = begin_outside r e in
      let out = fn (visible b.0) in
      let p = replace_inside b.0 out.0 b.2 in
      let c = commit_inside (replace out.0 b.0) p.1 in
      let val : (fn (visible b.0)).1 ≡ some v = ap (λ d. (fn d).1) b.4 ∙ f in
      let w : write core fn r ≡ (c.0, some v) =
        rw (write, call_block, commit_result, b.1, val, c.1) refl in
      subst (λ t. (in_write t.0 ≡ false) × (committed t.0 ≡ (fn (committed r)).0) × (t.1 ≡ some v))
        (sym w) (c.2, c.3 ∙ p.0 ∙ ap (λ d. (fn d).0) b.4, refl)

  -- What an exception out of a block leaves.
  write_throws :
      (fn : D → D × Option V) (r : R)
      → in_write r ≡ false
      → (fn (committed r)).1 ≡ none
      → (in_write (write core fn r).0 ≡ true)
        × (committed (write core fn r).0 ≡ committed r)
        × (visible (write core fn r).0 ≡ (fn (committed r)).0)
        × ((write core fn r).1 ≡ none)
  unfolding write call_block commit_result
  write_throws fn r e f =
      let b = begin_outside r e in
      let out = fn (visible b.0) in
      let p = replace_inside b.0 out.0 b.2 in
      let val : (fn (visible b.0)).1 ≡ none = ap (λ d. (fn d).1) b.4 ∙ f in
      let w : write core fn r ≡ (replace out.0 b.0, none) =
        rw (write, call_block, commit_result, b.1, val) refl in
      subst
        (λ t.
          (in_write t.0 ≡ true)
          × (committed t.0 ≡ committed r)
          × (visible t.0 ≡ (fn (committed r)).0)
          × (t.1 ≡ none))
        (sym w) (p.1, p.2 ∙ b.3, p.0 ∙ ap (λ d. (fn d).0) b.4, refl)

  write_all_inside :
      (fns : List (D → D × Option V)) (r : R)
      → in_write r ≡ true
      → write_all core fns r ≡ (r, map (λ fn. none) fns)
  unfolding write_all write
  write_all_inside [] r e = refl
  write_all_inside (fn ∷ fns) r e =
      rw (write_all, write, begin_inside r e)
        (ap (λ (t : R × List (Option V)). (t.0, none ∷ t.1)) (write_all_inside fns r e))

  -- Outside of a transaction, blocks that return are each run on what those before have committed, and
  -- all their changes are committed, and their results returned, in order.
  pub write_all-data_after :
      (fns : List (D → D × Option V)) (r : R)
      → in_write r ≡ false
      → All Returns fns
      → (in_write (write_all core fns r).0 ≡ false)
        × (committed (write_all core fns r).0 ≡ data_after fns (committed r))
        × ((write_all core fns r).1 ≡ results_of fns (committed r))
  unfolding write_all data_after results_of
  write_all-data_after [] r e h = (e, refl, refl)
  write_all-data_after (fn ∷ fns) r e h =
      let v = h.0 (committed r) in
      let w = write-outside fn v.0 r e v.1 in
      let rest = write_all-data_after fns (write core fn r).0 w.0 h.1 in
      (
        rest.0,
        rest.1 ∙ ap (data_after fns) w.1,
        ap (λ o. o ∷ (write_all core fns (write core fn r).0).1) (w.2 ∙ sym v.1)
            ∙ ap (λ os. (fn (committed r)).1 ∷ os) (rest.2 ∙ ap (results_of fns) w.1),
      )

  -- A block that throws leaves the write transaction open: nothing is committed, but the changes it
  -- has made stay; every `write` that follows throws without its block being run; and commit_write
  -- then commits what the block has left half done.
  pub write_all-commit_transaction :
      (fn : D → D × Option V) (fns : List (D → D × Option V)) (r : R)
      → in_write r ≡ false
      → (fn (committed r)).1 ≡ none
      → ((write_all core (fn ∷ fns) r).1 ≡ none ∷ map (λ g. none) fns)
        × (committed (write_all core (fn ∷ fns) r).0 ≡ committed r)
        × ((next : R) × (commit_transaction (write_all core (fn ∷ fns) r).0 ≡ some next)
            × (committed next ≡ (fn (committed r)).0))
  unfolding write_all
  write_all-commit_transaction fn fns r e f =
      let w = write_throws fn r e f in
      let rest = write_all_inside fns (write core fn r).0 w.0 in
      let c = commit_inside (write core fn r).0 w.0 in
      let left : write_all core (fn ∷ fns) r ≡ ((write core fn r).0, none ∷ map (λ g. none) fns) =
        ap (λ (t : R × List (Option V)). (t.0, (write core fn r).1 ∷ t.1)) rest
        ∙ ap (λ (o : Option V). ((write core fn r).0, o ∷ map (λ g. none) fns)) w.3 in
      subst
        (λ t.
          (t.1 ≡ none ∷ map (λ g. none) fns)
          × (committed t.0 ≡ committed r)
          × ((next : R) × (commit_transaction t.0 ≡ some next)
              × (committed next ≡ (fn (committed r)).0)))
        (sym left) (refl, w.1, (c.0, c.1, c.3 ∙ w.2))
