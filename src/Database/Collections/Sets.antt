-- ===== src/Database/Collections/Sets.antt =====
-- include/cpprealm/accessors.hpp: what sets have after they are set from values in memory.
use realm_cpp.Prelude.{
  ◌≡◌, refl, sym, ap, ◌∙◌, List, [], ◌∷◌, Bool, true, false, ◌||◌, Option, none, some,
  if◌then◌else◌, map,
}
use realm_cpp.Containers.Core.{CoreSet, CoreSetLaws}
use realm_cpp.Containers.Objects.{Table, made_object}
use realm_cpp.Database.Links.Appended.{made_objects}
use realm_cpp.Database.Collections.{set_values, set_objects}

module _ {ℓ κ} {L : Type ℓ} {U : Type κ} (core : CoreSet L U) (laws : CoreSetLaws core) where
  open laws use {has, same, has_insert}

  -- Whether a set takes one of the values for `u`.
  unfoldable pub has_same : List U → U → Bool
  has_same [] u = false
  has_same (v ∷ vs) u = same v u || has_same vs u

  or_assoc : (a b c : Bool) → (b || (a || c)) ≡ ((a || b) || c)
  or_assoc true true c = refl
  or_assoc true false c = refl
  or_assoc false b c = refl

  -- A value that is inserted before the others.
  has_insert-has_same :
      (v : U) (vs : List U) (l : L) (u : U)
      → (has_same vs u || has (core.insert v l).0 u) ≡ (has_same (v ∷ vs) u || has l u)
  unfolding has_same
  has_insert-has_same v vs l u =
      ap (λ b. has_same vs u || b) (has_insert l v u)
      ∙ or_assoc (same v u) (has_same vs u) (has l u)

module _ {ℓ κ ι} {L : Type ℓ} {U : Type κ} {T : Type ι} (core : CoreSet L U)
    (laws : CoreSetLaws core) (serialize : T → U) where
  open laws use {has}

  -- After accessor<std::set<T>>::set the set has the values in memory, and still those that it had.
  pub has-set_values :
      (value : List T) (l : L) (u : U)
      → has (set_values core serialize value l) u
        ≡ (has_same core laws (map serialize value) u || has l u)
  unfolding set_values has_same
  has-set_values [] l u = refl
  has-set_values (v ∷ value) l u =
      has-set_values value (core.insert (serialize v) l).0 u
      ∙ has_insert-has_same core laws (serialize v) (map serialize value) l u

module _ {ℓ κ ι μ} {L : Type ℓ} {State : Type κ} {T : Type ι} {Key : Type μ} (core : CoreSet L Key)
    (laws : CoreSetLaws core) (table : Table State T Key) where
  open table use {is_embedded}
  open laws use {has}

  -- The keys that a set of objects is given.
  unfoldable pub linked_keys : List (Option T) → State → List Key
  linked_keys value st = if is_embedded then [] else (made_objects table value st).1

  has-linked_key :
      (b : Bool) (key : Key) (keys : List Key) (l : L) (k : Key)
      → (has_same core laws (if b then [] else keys) k
          || has (if b then l else (core.insert key l).0) k)
        ≡ (has_same core laws (if b then [] else (key ∷ keys)) k || has l k)
  has-linked_key true key keys l k = refl
  has-linked_key false key keys l k = has_insert-has_same core laws key keys l k

  no_keys : (b : Bool) (u : Key) → has_same core laws (if b then [] else []) u ≡ false
  unfolding has_same
  no_keys true u = refl
  no_keys false u = refl

  -- accessor<std::set<T*>>::set makes the object of every pointer that is not null, in order. The set
  -- has their keys afterwards, and those that it had; if the class is embedded it has only those that
  -- it had, and the objects are in no set.
  pub has-set_objects :
      (value : List (Option T)) (st : State) (l : L)
      → ((set_objects core table value st l).0 ≡ (made_objects table value st).0)
        × ((k : Key)
            → has (set_objects core table value st l).1 k
              ≡ (has_same core laws (linked_keys value st) k || has l k))
  unfolding set_objects linked_keys made_objects has_same
  has-set_objects [] st l = (refl, λ k. ap (λ b. b || has l k) (sym (no_keys is_embedded k)))
  has-set_objects (none ∷ value) st l = has-set_objects value st l
  has-set_objects (some v ∷ value) st l =
      let made = made_object table v st in
      let rest =
        has-set_objects value made.0 (if is_embedded then l else (core.insert made.1 l).0) in
      (
        rest.0,
        λ k. rest.1 k ∙ has-linked_key is_embedded made.1 (made_objects table value made.0).1 l k,
      )
