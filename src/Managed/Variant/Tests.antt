-- ===== src/Managed/Variant/Tests.antt =====
-- The theorem about properties that hold a variant, with two classes.
use realm_cpp.Prelude.{ℕ, suc, ◌+◌, ◌==◌, ◌≡◌, false, if◌then◌else◌}
use realm_cpp.Prelude.Attempts.{completed, threw}
use realm_cpp.Containers.Objects.{Table, made_object}
use realm_cpp.Managed.Variant.{
  Alternative, of, pointer, Persistable, is_same, assign, holds_alternative, get_stored_link,
  set_link_object,
}
use realm_cpp.Managed.Variant.Alternatives.{kept_as, assign-set_link_object}

-- The table of a class has the next number; objects are numbered.
abbrev next_number : ℕ → ℕ
next_number c = c + 1

abbrev objects : Table ℕ ℕ ℕ
objects = record {
  has_primary_key = false;
  is_embedded = false;
  create_object = λ st. (suc st, st);
  create_object_with_primary_key = λ v st. (suc st, st);
  set_properties = λ key v st. st;
}

assign-set_link_object_example :
    ((a : Alternative) (b : Persistable) (v : ℕ)
      → holds_alternative next_number a (assign {Key = ℕ} b v) ≡ is_same a (of (kept_as b)))
    × ((a : Persistable)
        → holds_alternative {V = ℕ} next_number
            (of a)
            (set_link_object next_number objects 3 40 7).1
          ≡ false)
    × ((d : ℕ)
        → holds_alternative {V = ℕ} next_number
            (pointer d)
            (set_link_object next_number objects 3 40 7).1
          ≡ (next_number d == next_number 3))
    × ((d : ℕ)
        → get_stored_link {V = ℕ} next_number d (set_link_object next_number objects 3 40 7).1 ≡ (
            if next_number d == next_number 3
            then completed (made_object objects 40 7).1
            else threw))
assign-set_link_object_example = assign-set_link_object next_number objects 3 40 7
