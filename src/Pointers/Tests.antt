-- ===== src/Pointers/Tests.antt =====
-- The theorems about pointers at concrete columns: a state gives the link of an object's column.
use realm_cpp.Prelude.{
  ℕ, zero, suc, ◌≡◌, ◌≢◌, refl, List, [], ◌∷◌, Bool, true, false, not, ◌&&◌, Option, none, some,
  ◌==◌, ◌+◌, arith, if◌then◌else◌,
}
use realm_cpp.Prelude.Bytes.{codes, bytes_eq}
use realm_cpp.Query.{boolean, query}
use realm_cpp.Query.Small.{small, small-Laws, Numbers}
use realm_cpp.Pointers.{
  CoreLinks, Pointer, ManagedObject, to_object, to_pointer, to_null, assign_links, arrow,
}
use realm_cpp.Pointers.Assignments.{LinkLaws, last_link, target, stored_link, arrow-assign_links}
use realm_cpp.Pointers.Comparisons.{compare_object-Agrees, in_query, on_object}
use realm_cpp.Pointers.Detach.{
  ClassProperty, a_value, a_pointer, Classes, object, end, value_field, pointer_field, ended,
  detach, points_to,
}
use realm_cpp.Pointers.Detach.Ends.{Descends, detach-points_to}

abbrev Held : Type 0
Held = ℕ → ℕ → Option ℕ

abbrev linked_to : ℕ → ℕ → Option ℕ → Held → Held
linked_to k c v st j d = if (j == k) && (d == c) then v else st j d

abbrev held : CoreLinks Held
held = record {
  linked = λ k c st. st k c;
  set = λ k c v st. linked_to k c (some v) st;
  set_null = λ k c st. linked_to k c none st;
  create_and_set_linked_object = λ k c st. (linked_to k c (some 99) st, 99);
}

abbrev held-Laws : LinkLaws held
held-Laws = record { linked_set = λ k c v j d st. refl; linked_set_null = λ k c j d st. refl }

-- The column 7 of the object `k`.
abbrev pointer : ℕ → Pointer
pointer k = record { m_obj = k; m_key = 7; m_realm = 1 }

abbrev an_object : ℕ → ManagedObject
an_object k = record { m_obj = k; table = 2; m_realm = 1 }

abbrev nothing_held : Held
nothing_held k c = none

-- The first object links to 5, the second is assigned from it and links to the first.
arrow-assign_links_example :
    arrow held 2 (pointer 20) (
      assign_links held
        (to_object (pointer 10) (an_object 5)
          ∷ to_pointer (pointer 20) (pointer 10)
          ∷ to_null (pointer 30)
          ∷ [])
        nothing_held)
    ≡ some (an_object 10)
unfolding last_link target stored_link
arrow-assign_links_example =
    arrow-assign_links held held-Laws
      (to_object (pointer 10) (an_object 5)
        ∷ to_pointer (pointer 20) (pointer 10)
        ∷ to_null (pointer 30)
        ∷ [])
      2 (pointer 20) nothing_held

-- Every object links to the one with its own key.
abbrev itself : Held
itself k c = some k

compare_object-Agrees_example :
    (r s : ℕ × (Numbers → Bool)) × (in_query held small small-Laws
        (λ k. k)
        true
        (pointer 3)
        (an_object 5)
        7
        itself
        2
      ≡ query r)
    × (in_query held small small-Laws (λ k. k) false (pointer 3) (an_object 5) 7 itself 2 ≡ query s)
    × ((o : Numbers)
        → on_object held small small-Laws
            (λ k. k)
            true
            (λ o'. pointer (o' 7))
            (an_object 5)
            7
            itself
            o
          ≡ boolean (r.1 o))
    × ((o : Numbers)
        → on_object held small small-Laws
            (λ k. k)
            true
            (λ o'. pointer (o' 7))
            (an_object 5)
            7
            itself
            o
          ≡ boolean (not (s.1 o)))
compare_object-Agrees_example =
    compare_object-Agrees held small small-Laws (λ k. k) 7 (λ o. pointer (o 7)) itself (pointer 3)
      (an_object 5) 2 (λ o k. refl) (λ o. refl)

abbrev named : (ℕ → List ClassProperty) → Classes Held ℕ
named properties = record {
  properties = properties;
  get_column_key = λ t name. some (if bytes_eq name (codes "name") then 0 else 7);
  value = λ k c st. k + c;
}

-- The nodes of a list.
abbrev nodes : ℕ → List ClassProperty
nodes c = a_value (codes "name") ∷ a_pointer (codes "next") c ∷ []

detach-points_to_example :
    detach held (named nodes) nothing_held 100 0 (0, 10) ≢ ended (object (value_field 10 end))
unfolding points_to
detach-points_to_example =
    detach-points_to held (named nodes) nothing_held 100 0 (0, 10) (object (value_field 10 end))
      refl

-- A class whose objects have an owner, and the class of the owners.
abbrev owned : ℕ → List ClassProperty
owned zero = a_value (codes "name") ∷ []
owned (suc c) = a_value (codes "name") ∷ a_pointer (codes "owner") 0 ∷ []

ranks_fall : (c : ℕ) → Descends held (named owned) itself (λ d. d) c (owned c)
unfolding Descends bytes_eq
ranks_fall zero = ((0, refl), tt)
ranks_fall (suc c) = ((0, refl), ((7, refl), omega arith, tt))

-- Its value is the object with its owner.
detached_owner :
    detach held (named owned) itself 2 1 (1, 10)
    ≡ ended (object (value_field 10 (pointer_field (object (value_field 10 end)) end)))
unfolding detach bytes_eq
detached_owner = refl

-- The detached owner of an object without one is the object itself, in the class of owners.
detached_null :
    detach held (named owned) nothing_held 2 1 (1, 10)
    ≡ ended (object (value_field 10 (pointer_field (object (value_field 10 end)) end)))
unfolding detach bytes_eq
detached_null = refl
