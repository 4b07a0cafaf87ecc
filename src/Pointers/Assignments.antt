-- ===== src/Pointers/Assignments.antt =====
-- include/cpprealm/link.hpp: what the assignments to pointers leave in the columns.
use realm_cpp.Prelude.{
  ℕ, ◌≡◌, ◌↔◌, refl, sym, ap, ◌∙◌, List, [], ◌∷◌, true, ◌&&◌, Option, none, some, ◌==◌, ==_refl,
  if◌then◌else◌, arith,
}
use realm_cpp.Pointers.{
  CoreLinks, Pointer, Assignment, to_object, to_pointer, to_null, assign, assign_links,
  assign_pointer, arrow,
}
use mathlib.Core.Option

-- A column holds what was set last.
pub record LinkLaws {ℓ} {State : Type ℓ} (core : CoreLinks State) : Type ℓ where
  pub linked_set :
      (k c v j d : ℕ) (st : State)
      → core.linked j d (core.set k c v st)
        ≡ (if (j == k) && (d == c) then some v else core.linked j d st)
  pub linked_set_null :
      (k c j d : ℕ) (st : State)
      → core.linked j d (core.set_null k c st)
        ≡ (if (j == k) && (d == c) then none else core.linked j d st)

module _ {ℓ} {State : Type ℓ} (core : CoreLinks State) (laws : LinkLaws core) where
  open core use {linked}
  open laws use {linked_set, linked_set_null}

  -- The column that an assignment is to, and the link that it stores there.
  unfoldable pub target : Assignment core → Pointer
  target (to_object p obj) = p
  target (to_pointer p q) = p
  target (to_null p) = p

  unfoldable pub stored_link : Assignment core → Option ℕ
  stored_link (to_object p obj) = some obj.m_obj
  stored_link (to_pointer p q) = some q.m_obj
  stored_link (to_null p) = none

  -- The link of a column after assignments: the last one that is to the column.
  unfoldable pub last_link : ℕ → ℕ → List (Assignment core) → Option ℕ → Option ℕ
  last_link j d [] held = held
  last_link j d (a ∷ as') held =
      last_link j d as'
        (if (j == (target a).m_obj) && (d == (target a).m_key) then stored_link a else held)

  linked-assign :
      (a : Assignment core) (j d : ℕ) (st : State)
      → linked j d (assign core a st) ≡ (
          if (j == (target a).m_obj) && (d == (target a).m_key)
          then stored_link a
          else linked j d st)
  unfolding assign target stored_link
  linked-assign (to_object p obj) j d st = linked_set p.m_obj p.m_key obj.m_obj j d st
  linked-assign (to_pointer p q) j d st = linked_set p.m_obj p.m_key q.m_obj j d st
  linked-assign (to_null p) j d st = linked_set_null p.m_obj p.m_key j d st

  pub linked-assign_links :
      (as' : List (Assignment core)) (j d : ℕ) (st : State)
      → linked j d (assign_links core as' st) ≡ last_link j d as' (linked j d st)
  unfolding assign_links last_link
  linked-assign_links [] j d st = refl
  linked-assign_links (a ∷ as') j d st =
      linked-assign_links as' j d (assign core a st)
      ∙ ap (last_link j d as') (linked-assign a j d st)

  -- After any assignments to pointers, `operator->` of a pointer gives the object that was assigned
  -- last to its column; after an assignment from another pointer that is the object which has
  -- the other pointer, not the one that it links to.
  pub arrow-assign_links :
      (as' : List (Assignment core)) (t : ℕ) (p : Pointer) (st : State)
      → arrow core t p (assign_links core as' st)
        ≡ Option.map
            (λ k. record { m_obj = k; table = t; m_realm = p.m_realm })
            (last_link p.m_obj p.m_key as' (linked p.m_obj p.m_key st))
  unfolding arrow
  arrow-assign_links as' t p st =
      ap (Option.map (λ k. record { m_obj = k; table = t; m_realm = p.m_realm }))
        (linked-assign_links as' p.m_obj p.m_key st)

  here : (j d : ℕ) → ((j == j) && (d == d)) ≡ true
  here j d = ground (arith, ==_refl j, ==_refl d)

  -- An assignment from a pointer makes both link to the same object only if the other pointer
  -- links to the object that it belongs to.
  pub assign_pointer-linked :
      (p q : Pointer) (st : State)
      → (linked p.m_obj p.m_key (assign_pointer core p q st) ≡ linked q.m_obj q.m_key st)
        ↔ (linked q.m_obj q.m_key st ≡ some q.m_obj)
  unfolding assign_pointer
  assign_pointer-linked p q st =
      let e : linked p.m_obj p.m_key (assign_pointer core p q st) ≡ some q.m_obj =
        linked_set p.m_obj p.m_key q.m_obj p.m_obj p.m_key st
        ∙ ap (λ b. if b then some q.m_obj else linked p.m_obj p.m_key st) (here p.m_obj p.m_key) in
      ((λ h. sym h ∙ e), (λ h. e ∙ sym h))
