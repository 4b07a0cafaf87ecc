-- ===== src/Database.antt =====
-- include/cpprealm/db.hpp: write transactions of a Realm, by begin_write, commit_write and write.
--
-- realm-core's Realm is a parameter: `visible` is the data that its objects show, `replace` what the
-- changes of a block make of them; `none` is an exception. A block is given the data, and gives the
-- data as it leaves them and its result, `none` if it throws.
pub mod Transactions
pub mod Links
pub mod Columns
pub mod Collections
mod Tests
use realm_cpp.Prelude.{List, [], ◌∷◌, Bool, true, false, ◌≡◌, Option, none, some}

pub record CoreRealm {ℓ κ} (R : Type ℓ) (D : Type κ) : Type (ℓ ⊔ κ) where
  pub begin_transaction : R → Option R
  pub commit_transaction : R → Option R
  pub visible : R → D
  pub replace : D → R → R

-- `committed` is the latest version of the file. No other process writes to it.
pub record CoreRealmLaws {ℓ κ} {R : Type ℓ} {D : Type κ} (core : CoreRealm R D) : Type (ℓ ⊔ κ) where
  pub in_write : R → Bool
  pub committed : R → D
  pub begin_outside :
      (r : R)
      → in_write r ≡ false
      → (next : R) × (core.begin_transaction r ≡ some next)
        × (in_write next ≡ true)
        × (committed next ≡ committed r)
        × (core.visible next ≡ committed r)
  pub begin_inside : (r : R) → in_write r ≡ true → core.begin_transaction r ≡ none
  pub commit_inside :
      (r : R)
      → in_write r ≡ true
      → (next : R) × (core.commit_transaction r ≡ some next)
        × (in_write next ≡ false)
        × (committed next ≡ core.visible r)
  pub replace_inside :
      (r : R) (d : D)
      → in_write r ≡ true
      → (core.visible (core.replace d r) ≡ d)
        × (in_write (core.replace d r) ≡ true)
        × (committed (core.replace d r) ≡ committed r)

module _ {ℓ κ ι} {R : Type ℓ} {D : Type κ} {V : Type ι} (core : CoreRealm R D) where
  open core use {begin_transaction, commit_transaction, visible, replace}

  -- The call of a block.
  pub call_block : (D → D × Option V) → R → R × Option V
  call_block fn r = let out = fn (visible r) in (replace out.0 r, out.1)

  -- commit_write, behind the block's result
  pub commit_result : V → R → R × Option V
  commit_result val r = elim (commit_transaction r) [
    | none ↦ (r, none)
    | some next ↦ (next, some val)
  ]

  -- `write(fn)`
  pub write : (D → D × Option V) → R → R × Option V
  unfolding call_block commit_result
  write fn r = elim (begin_transaction r) [
    | none ↦ (r, none)
    | some begun ↦
        let out = call_block fn begun in
        elim out.1 [ none ↦ (out.0, none) | some val ↦ commit_result val out.0 ]
  ]

  -- Several blocks, and the results of the calls.
  pub write_all : List (D → D × Option V) → R → R × List (Option V)
  write_all [] r = (r, [])
  write_all (fn ∷ fns) r =
      let out = write fn r in let rest = write_all fns out.0 in (rest.0, out.1 ∷ rest.1)
