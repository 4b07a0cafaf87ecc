-- ===== src/Containers/Iteration.antt =====
-- include/cpprealm/managed_list.hpp and results.hpp: what a loop over a collection visits.
use realm_cpp.Prelude.{
  ℕ, zero, suc, ◌+◌, ◌%◌, ◌^◌, ◌<◌, ◌≡◌, refl, ap, ◌∙◌, sym, List, [], ◌∷◌, true, false, some, ◌==◌,
  length, get_elem?, arith, ==_refl,
}
use realm_cpp.Containers.{
  returned, Container, Iterator, is_equal, increment, advance, to_size, post_increment, finished,
  running, loop, begin, end, range_for,
}

-- The list that a collection presents: its length is `size()`, and each index below has its value.
abbrev pub Presents {ℓ κ} : {L : Type ℓ} {A : Type κ} → Container L A → L → List A → Type κ
Presents {A = A} c l xs =
    (c.count l ≡ length xs)
    × ((i : ℕ) (a : A) → get_elem? xs i ≡ some a → c.element l i ≡ returned a)

-- The values of a list given to the body of a loop, in their order.
unfoldable pub visit {ℓ κ} : {A : Type ℓ} {S : Type κ} → (A → S → S) → List A → S → S
visit body [] s = s
visit body (x ∷ xs) s = visit body xs (body x s)

-- The rest of a list from an index on.
unfoldable pub drop {ℓ} : {A : Type ℓ} → ℕ → List A → List A
drop zero xs = xs
drop (suc n) [] = []
drop (suc n) (x ∷ xs) = drop n xs

pub drop-some {ℓ} :
    {A : Type ℓ} (i : ℕ) (xs : List A)
    → i < length xs
    → (a : A) × (get_elem? xs i ≡ some a) × (drop i xs ≡ a ∷ drop (suc i) xs)
unfolding drop
drop-some i [] h = absurd (omega arith)
drop-some zero (x ∷ xs) h = (x, refl, refl)
drop-some (suc i) (x ∷ xs) h = drop-some i xs (omega arith)

pub drop-length {ℓ} : {A : Type ℓ} (xs : List A) → drop (length xs) xs ≡ []
unfolding drop
drop-length [] = refl
drop-length (x ∷ xs) = drop-length xs

is_equal_here :
    (i j address : ℕ)
    → is_equal (record { m_i = i; m_parent = address }) (record { m_i = j; m_parent = address })
      ≡ (i == j)
unfolding is_equal
is_equal_here i j address = rw (==_refl address)

increment_here :
    (i address : ℕ)
    → i + 1 < 2 ^ 64
    → increment (record { m_i = i; m_parent = address })
      ≡ record { m_i = suc i; m_parent = address }
unfolding increment
increment_here i address h =
    let e : (i + 1) % 2 ^ 64 ≡ suc i = omega arith in
    ap (λ (n : ℕ). record { m_i = n; m_parent = address }) e

not_here : (i n : ℕ) → i < n → (i == n) ≡ false
not_here i n h = ground arith

module _ {ℓ κ ι} {L : Type ℓ} {A : Type κ} {S : Type ι} (c : Container L A) (body : A → S → S) where
  -- One round of a loop that has not reached its end.
  loop-round :
      (step : Iterator → Iterator) (fuel i n address : ℕ) (l : L) (a : A) (s : S)
      → (i == n) ≡ false
      → c.element l i ≡ returned a
      → loop c step body l
          (suc fuel)
          (record { m_i = i; m_parent = address })
          (record { m_i = n; m_parent = address })
          s
        ≡ loop c step body l fuel
            (step (record { m_i = i; m_parent = address }))
            (record { m_i = n; m_parent = address })
            (body a s)
  unfolding loop
  loop-round step fuel i n address l a s h e = rw (loop, is_equal_here i n address, h, e)

  loop-done :
      (step : Iterator → Iterator) (fuel i n address : ℕ) (l : L) (s : S)
      → i ≡ n
      → loop c step body l
          (suc fuel)
          (record { m_i = i; m_parent = address })
          (record { m_i = n; m_parent = address })
          s
        ≡ finished s
  unfolding loop
  loop-done step fuel i n address l s e =
      let h : (i == n) ≡ true = ground arith in rw (loop, is_equal_here i n address, h)

  loop-increment :
      (fuel i address : ℕ) (l : L) (xs : List A) (s : S)
      → Presents c l xs
      → length xs < 2 ^ 64
      → i + fuel ≡ length xs
      → loop c increment body l
          (suc fuel)
          (record { m_i = i; m_parent = address })
          (record { m_i = length xs; m_parent = address })
          s
        ≡ finished (visit body (drop i xs) s)
  unfolding visit
  loop-increment zero i address l xs s p h e =
      let d : i ≡ length xs = omega arith in
      loop-done increment 0 i (length xs) address l s d
      ∙ ap (λ ys. finished (visit body ys s)) (sym (ap (λ n. drop n xs) d ∙ drop-length xs))
  loop-increment (suc fuel) i address l xs s p h e =
      let d = drop-some i xs (omega arith) in
      loop-round increment (suc fuel) i (length xs) address l d.0 s
        (not_here i (length xs) (omega arith)) (p.1 i d.0 d.1)
      ∙ ap
          (λ it.
            loop c increment body l (suc fuel) it (record { m_i = length xs; m_parent = address })
              (body d.0 s))
          (increment_here i address (omega arith))
      ∙ loop-increment fuel (suc i) address l xs (body d.0 s) p h (omega arith)
      ∙ ap (λ ys. finished (visit body ys s)) (sym d.2)

  -- If a collection has fewer than 2^64 values, `for (auto a : collection)` ends, and its body has
  -- been given every value once, in order: no index out of range is read. As much fuel as there are
  -- values, and one, is enough.
  pub range_for-visit :
      (address : ℕ) (l : L) (xs : List A) (s : S)
      → Presents c l xs
      → length xs < 2 ^ 64
      → range_for c body (suc (length xs)) address l s ≡ finished (visit body xs s)
  unfolding range_for drop
  range_for-visit address l xs s p h =
      ap
        (λ n.
          loop c increment body l (suc (length xs)) (record { m_i = 0; m_parent = address })
            (record { m_i = n; m_parent = address }) s)
        p.0
      ∙ loop-increment (length xs) 0 address l xs s p h (omega arith)

  -- With `it++` in place of `++it` the loop over a collection that is not empty never ends: however
  -- much fuel is given, it is still running.
  pub loop-post_increment :
      (fuel address : ℕ) (l : L) (x : A) (xs : List A) (s : S)
      → Presents c l (x ∷ xs)
      → loop c post_increment body l fuel (begin c address l) (end c address l) s ≡ running
  unfolding loop post_increment advance to_size
  loop-post_increment zero address l x xs s p = refl
  loop-post_increment (suc fuel) address l x xs s p =
      loop-round post_increment fuel 0 (c.count l) address l x s
        (not_here 0 (c.count l) (omega (arith, p.0))) (p.1 0 x refl)
      ∙ loop-post_increment fuel address l x xs (body x s) p
