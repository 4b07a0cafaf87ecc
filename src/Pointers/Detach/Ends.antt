-- ===== src/Pointers/Detach/Ends.antt =====
-- include/cpprealm/link.hpp and macros.hpp: when `detach` returns.
use realm_cpp.Prelude.{
  ℕ, zero, suc, ◌<◌, ◌≡◌, ◌≢◌, refl, sym, ◌∙◌, inl, inr, List, [], ◌∷◌, true, some, ◌==◌, arith,
  ==_iff, Bool-cases, subst, Option-cases,
}
use realm_cpp.Pointers.{CoreLinks}
use realm_cpp.Pointers.Detach.{
  ClassProperty, a_value, a_pointer, Detached, DetachedFields, object, end, value_field,
  pointer_field, Progress, ended, threw, running, Classes, ObjectAt, pointee, with_value,
  with_pointer, detach_properties, made_of, detach, points_to,
}

module _ {ℓ} {State : Type ℓ} {V : Type 0} (links : CoreLinks State) (classes : Classes State V)
    (st : State) where
  open links use {linked}
  open classes use {properties, get_column_key, value}

  with_value-ended :
      (v : V) (r : Progress (DetachedFields V)) (fs : DetachedFields V)
      → with_value links classes st v r ≡ ended fs
      → (gs : DetachedFields V) × (r ≡ ended gs)
  unfolding with_value
  with_value-ended v (ended gs) fs e = (gs, refl)
  with_value-ended v threw fs e = cc
  with_value-ended v running fs e = cc

  with_pointer-ended :
      (d : Progress (Detached V)) (r : Progress (DetachedFields V)) (fs : DetachedFields V)
      → with_pointer links classes st d r ≡ ended fs
      → (o : Detached V) × (gs : DetachedFields V) × (d ≡ ended o) × (r ≡ ended gs)
  unfolding with_pointer
  with_pointer-ended (ended o) (ended gs) fs e = (o, gs, refl, refl)
  with_pointer-ended (ended o) threw fs e = cc
  with_pointer-ended (ended o) running fs e = cc
  with_pointer-ended threw r fs e = cc
  with_pointer-ended running r fs e = cc

  -- A property list that is detached to the end has detached something for each of its pointers.
  detach_properties-ended :
      (rec : ℕ → ObjectAt links classes st → Progress (Detached V)) (ps : List ClassProperty)
      (m_obj : ObjectAt links classes st) (fs : DetachedFields V) (target : ℕ)
      → points_to links classes st target ps ≡ true
      → detach_properties links classes st rec ps m_obj ≡ ended fs
      → (o : ObjectAt links classes st) × (d : Detached V) × (rec target o ≡ ended d)
  unfolding detach_properties points_to
  detach_properties-ended rec [] m_obj fs target h e = cc
  detach_properties-ended rec (a_value name ∷ ps) m_obj fs target h e =
      elim (Option-cases (get_column_key m_obj.0 name)) [
        | inl n ↦
            let s : detach_properties links classes st rec (a_value name ∷ ps) m_obj ≡ threw =
              rw (detach_properties, n) refl in
            cc
        | inr (k, n) ↦
            let s : detach_properties links classes st rec (a_value name ∷ ps) m_obj
                ≡ with_value links classes st (value m_obj.1 k st)
                    (detach_properties links classes st rec ps m_obj) =
              rw (detach_properties, n) refl in
            let r =
              with_value-ended (value m_obj.1 k st)
                (detach_properties links classes st rec ps m_obj) fs (sym s ∙ e) in
            detach_properties-ended rec ps m_obj r.0 target h r.1
      ]
  detach_properties-ended rec (a_pointer name c ∷ ps) m_obj fs target h e =
      elim (Option-cases (get_column_key m_obj.0 name)) [
        | inl n ↦
            let s : detach_properties links classes st rec (a_pointer name c ∷ ps) m_obj ≡ threw =
              rw (detach_properties, n) refl in
            cc
        | inr (k, n) ↦
            let s : detach_properties links classes st rec (a_pointer name c ∷ ps) m_obj
                ≡ with_pointer links classes st (rec c (pointee links classes st c m_obj k))
                    (detach_properties links classes st rec ps m_obj) =
              rw (detach_properties, n) refl in
            let r =
              with_pointer-ended (rec c (pointee links classes st c m_obj k))
                (detach_properties links classes st rec ps m_obj) fs (sym s ∙ e) in
            elim (Bool-cases (c == target)) [
              | inl t ↦
                  subst
                    (λ (x : ℕ).
                      (o : ObjectAt links classes st) × (d : Detached V) × (rec x o ≡ ended d))
                    ((==_iff c target).0 t) (pointee links classes st c m_obj k, r.0, r.2)
              | inr t ↦
                  let u : points_to links classes st target ps ≡ true = ground (arith, h, t) in
                  detach_properties-ended rec ps m_obj r.1 target u r.3
            ]
      ]

  made_of-ended :
      (r : Progress (DetachedFields V)) (d : Detached V)
      → made_of links classes st r ≡ ended d
      → (fs : DetachedFields V) × (r ≡ ended fs)
  unfolding made_of
  made_of-ended (ended fs) d e = (fs, refl)
  made_of-ended threw d e = cc
  made_of-ended running d e = cc

  -- `detach` of an object never returns if its class has a pointer to the same class, whatever the
  -- pointers hold: that of null goes on with the object that has the pointer.
  pub detach-points_to :
      (fuel c : ℕ) (m_obj : ObjectAt links classes st) (d : Detached V)
      → points_to links classes st c (properties c) ≡ true
      → detach links classes st fuel c m_obj ≢ ended d
  unfolding detach
  detach-points_to zero c m_obj d h e = cc
  detach-points_to (suc fuel) c m_obj d h e =
      let r =
        made_of-ended
          (detach_properties links classes st (detach links classes st fuel) (properties c) m_obj) d
          e in
      let o =
        detach_properties-ended (detach links classes st fuel) (properties c) m_obj r.0 c h r.1 in
      detach-points_to fuel c o.0 o.1 h o.2

  -- Every property of a list has a column in the table, and a pointer is to a class of smaller rank.
  unfoldable pub Descends : (ℕ → ℕ) → ℕ → List ClassProperty → Type 0
  Descends rank c [] = Unit {0}
  Descends rank c (a_value name ∷ ps) =
      ((k : ℕ) × (get_column_key c name ≡ some k)) × Descends rank c ps
  Descends rank c (a_pointer name target ∷ ps) =
      ((k : ℕ) × (get_column_key c name ≡ some k)) × (rank target < rank c) × Descends rank c ps

  detach_properties-Descends :
      (rank : ℕ → ℕ) (rec : ℕ → ObjectAt links classes st → Progress (Detached V)) (c : ℕ)
      (ps : List ClassProperty) (k : ℕ)
      → ((j m_key : ℕ) → (t : ℕ) × (linked j m_key st ≡ some t))
      → ((t j : ℕ) → rank t < rank c → (d : Detached V) × (rec t (t, j) ≡ ended d))
      → Descends rank c ps
      → (fs : DetachedFields V) × (detach_properties links classes st rec ps (c, k) ≡ ended fs)
  unfolding detach_properties Descends with_value with_pointer pointee
  detach_properties-Descends rank rec c [] k full ends h = (end, refl)
  detach_properties-Descends rank rec c (a_value name ∷ ps) k full ends h =
      let r = detach_properties-Descends rank rec c ps k full ends h.1 in
      (value_field (value k h.0.0 st) r.0, rw (detach_properties, h.0.1, r.1) refl)
  detach_properties-Descends rank rec c (a_pointer name target ∷ ps) k full ends h =
      let r = detach_properties-Descends rank rec c ps k full ends h.2 in
      let l = full k h.0.0 in
      let d = ends target l.0 h.1 in
      (pointer_field d.0 r.0, rw (detach_properties, h.0.1, pointee, l.1, d.1, r.1) refl)

  -- `detach` returns if the classes have ranks that fall along their pointers, every property has a
  -- column, and no pointer is null; one unit of fuel more than the rank is enough.
  pub detach-Descends :
      (rank : ℕ → ℕ) (fuel c k : ℕ)
      → rank c < fuel
      → ((d : ℕ) → Descends rank d (properties d))
      → ((j m_key : ℕ) → (t : ℕ) × (linked j m_key st ≡ some t))
      → (d : Detached V) × (detach links classes st fuel c (c, k) ≡ ended d)
  unfolding detach made_of
  detach-Descends rank zero c k h classes_fall full = absurd (omega arith)
  detach-Descends rank (suc fuel) c k h classes_fall full =
      let r =
        detach_properties-Descends rank (detach links classes st fuel) c (properties c) k full
          (λ t j l. detach-Descends rank fuel t j (omega arith) classes_fall full)
          (classes_fall c) in
      (object r.0, rw (detach, r.1) refl)
