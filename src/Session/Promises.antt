-- ===== src/Session/Promises.antt =====
-- src/cpprealm/internal/bridge/sync_session.cpp: what settling and breaking promises does to the list of
-- all promises.
use realm_cpp.Prelude.{
  ℕ, zero, suc, ◌+◌, ◌==◌, ◌≤◌, ◌≡◌, refl, sym, ap, ◌∙◌, inl, inr, Option-cases, List, [], ◌∷◌,
  ◌++◌, Bool, true, false, Option, none, some, length, get_elem?, if◌then◌else◌, arith,
}
use realm_cpp.Session.{
  Direction, Status, is_ok, has_code, Promise, pending, fulfilled, failed_with, session_destroyed,
  broken_promise, settle, settle_at, break_promise, break_at, break_all, take_out,
}
use mathlib.Core.Option

-- Whether a promise is pending, as a number; out of range it is not.
unfoldable pub pending_count : Option Promise → ℕ
pending_count none = 0
pending_count (some pending) = 1
pending_count (some fulfilled) = 0
pending_count (some (failed_with c)) = 0
pending_count (some session_destroyed) = 0
pending_count (some broken_promise) = 0

unfoldable pub one_if : Bool → ℕ
one_if true = 1
one_if false = 0

-- How many lambdas wait with the promise `n`.
unfoldable pub waiting_count : ℕ → List (Direction × ℕ) → ℕ
unfolding one_if
waiting_count n [] = 0
waiting_count n (w ∷ ws) = one_if (n == w.1) + waiting_count n ws

pub waiting_count-snoc :
    (n m : ℕ) (d : Direction) (ws : List (Direction × ℕ))
    → waiting_count n (ws ++ (d, m) ∷ []) ≡ waiting_count n ws + one_if (n == m)
unfolding waiting_count
waiting_count-snoc n m d [] = omega arith
waiting_count-snoc n m d (w ∷ ws) = omega (arith, waiting_count-snoc n m d ws)

pub pending_count-snoc :
    (n : ℕ) (p : Promise) (ps : List Promise)
    → pending_count (get_elem? (ps ++ p ∷ []) n)
      ≡ pending_count (get_elem? ps n) + (if n == length ps then pending_count (some p) else 0)
unfolding pending_count
pending_count-snoc zero p [] = omega arith
pending_count-snoc (suc n) p [] = ground arith
pending_count-snoc zero p (q ∷ ps) = ground arith
pending_count-snoc (suc n) p (q ∷ ps) = ground (arith, pending_count-snoc n p ps)

pub pending_count-beyond : (ps : List Promise) → pending_count (get_elem? ps (length ps)) ≡ 0
unfolding pending_count
pending_count-beyond [] = refl
pending_count-beyond (p ∷ ps) = pending_count-beyond ps

pub pending_count-most : (o : Option Promise) → pending_count o ≤ 1
unfolding pending_count
pending_count-most none = omega arith
pending_count-most (some pending) = omega arith
pending_count-most (some fulfilled) = omega arith
pending_count-most (some (failed_with c)) = omega arith
pending_count-most (some session_destroyed) = omega arith
pending_count-most (some broken_promise) = omega arith

-- What the lambda makes of a pending promise.
unfoldable pub settled : Status → Promise
settled is_ok = fulfilled
settled (has_code c) = failed_with c

pub settle-pending :
    (s : Status) (p : Promise)
    → pending_count (some p) ≡ 1
    → (settle s p ≡ some (settled s)) × (pending_count (some (settled s)) ≡ 0)
unfolding settle settled pending_count
settle-pending is_ok pending e = (refl, refl)
settle-pending (has_code c) pending e = (refl, refl)
settle-pending s fulfilled e = cc
settle-pending s (failed_with c) e = cc
settle-pending s session_destroyed e = cc
settle-pending s broken_promise e = cc

pub take_out-waiting_count :
    (k n : ℕ) (ws : List (Direction × ℕ)) (w : Direction × ℕ) (rest : List (Direction × ℕ))
    → take_out k ws ≡ some (w, rest)
    → waiting_count n ws ≡ one_if (n == w.1) + waiting_count n rest
unfolding take_out waiting_count
take_out-waiting_count k n [] w rest e = cc
take_out-waiting_count zero n (v ∷ ws) w rest e =
    let same : v ≡ w = cc in
    let others : ws ≡ rest = cc in
    ap (λ u. one_if (n == u.1) + waiting_count n ws) same
    ∙ ap (λ us. one_if (n == w.1) + waiting_count n us) others
take_out-waiting_count (suc k) n (v ∷ ws) w rest e = elim (Option-cases (take_out k ws)) [
  | inl h ↦ let c : none ≡ some (w, rest) = sym (ap (Option.map (λ r. (r.0, v ∷ r.1))) h) ∙ e in cc
  | inr (r, h) ↦
      let c : some (r.0, v ∷ r.1) ≡ some (w, rest) =
        sym (ap (Option.map (λ q. (q.0, v ∷ q.1))) h) ∙ e in
      let same : r.0 ≡ w = cc in
      let others : v ∷ r.1 ≡ rest = cc in
      let inner = take_out-waiting_count k n ws r.0 r.1 h in
      let swapped : waiting_count n (v ∷ ws) ≡ one_if (n == r.0.1) + waiting_count n (v ∷ r.1) =
        omega (arith, inner) in
      swapped
      ∙ ap (λ u. one_if (n == u.1) + waiting_count n (v ∷ r.1)) same
      ∙ ap (λ us. one_if (n == w.1) + waiting_count n us) others
]

front_replaced :
    (n : ℕ) (a p : Promise) (ps : List Promise)
    → get_elem? (a ∷ ps) n ≡ (if n == 0 then some a else get_elem? (p ∷ ps) n)
front_replaced zero a p ps = refl
front_replaced (suc n) a p ps = ground arith

behind_replaced :
    (m n : ℕ) (a p : Promise) (next ps : List Promise)
    → ((k : ℕ) → get_elem? next k ≡ (if k == m then some a else get_elem? ps k))
    → get_elem? (p ∷ next) n ≡ (if n == suc m then some a else get_elem? (p ∷ ps) n)
behind_replaced m zero a p next ps h = ground arith
behind_replaced m (suc n) a p next ps h = ground (arith, h n)

-- A promise that is pending is settled, and no other promise changes.
pub settle_at-pending :
    (m : ℕ) (s : Status) (ps : List Promise)
    → pending_count (get_elem? ps m) ≡ 1
    → (next : List Promise) × (settle_at m s ps ≡ some next)
      × ((n : ℕ) → get_elem? next n ≡ (if n == m then some (settled s) else get_elem? ps n))
unfolding settle_at pending_count
settle_at-pending m s [] e = cc
settle_at-pending zero s (p ∷ ps) e = (
  settled s ∷ ps,
  ap (Option.map (λ q. q ∷ ps)) (settle-pending s p e).0,
  λ n. front_replaced n (settled s) p ps,
)
settle_at-pending (suc m) s (p ∷ ps) e =
    let r = settle_at-pending m s ps e in
    (p ∷ r.0, ap (Option.map (λ qs. p ∷ qs)) r.1, λ n. behind_replaced m n (settled s) p r.0 ps r.2)

break_promise-count : (p : Promise) → pending_count (some (break_promise p)) ≡ 0
unfolding break_promise pending_count
break_promise-count pending = refl
break_promise-count fulfilled = refl
break_promise-count (failed_with c) = refl
break_promise-count session_destroyed = refl
break_promise-count broken_promise = refl

break_at-pending_count :
    (m n : ℕ) (ps : List Promise)
    → pending_count (get_elem? (break_at m ps) n)
      ≡ (if n == m then 0 else pending_count (get_elem? ps n))
unfolding break_at pending_count
break_at-pending_count m n [] = ground arith
break_at-pending_count zero zero (p ∷ ps) = break_promise-count p
break_at-pending_count zero (suc n) (p ∷ ps) = ground arith
break_at-pending_count (suc m) zero (p ∷ ps) = ground arith
break_at-pending_count (suc m) (suc n) (p ∷ ps) = ground (arith, break_at-pending_count m n ps)

pub break_all-pending_count :
    (n : ℕ) (ws : List (Direction × ℕ)) (ps : List Promise)
    → pending_count (get_elem? ps n) ≤ waiting_count n ws
    → pending_count (get_elem? (break_all ws ps) n) ≡ 0
unfolding break_all waiting_count
break_all-pending_count n [] ps h = omega arith
break_all-pending_count n (w ∷ ws) ps h =
    break_all-pending_count n ws (break_at w.1 ps)
      (ground (arith, break_at-pending_count w.1 n ps, h))

break_promise-settled : (p : Promise) → pending_count (some p) ≡ 0 → break_promise p ≡ p
unfolding break_promise pending_count
break_promise-settled pending e = cc
break_promise-settled fulfilled e = refl
break_promise-settled (failed_with c) e = refl
break_promise-settled session_destroyed e = refl
break_promise-settled broken_promise e = refl

break_at-kept :
    (m n : ℕ) (ps : List Promise) (p : Promise)
    → get_elem? ps n ≡ some p
    → pending_count (some p) ≡ 0
    → get_elem? (break_at m ps) n ≡ some p
unfolding break_at
break_at-kept m n [] p e h = e
break_at-kept zero zero (q ∷ ps) p e h =
    let same : q ≡ p = cc in
    ap (λ r. some (break_promise r)) same ∙ ap some (break_promise-settled p h)
break_at-kept zero (suc n) (q ∷ ps) p e h = e
break_at-kept (suc m) zero (q ∷ ps) p e h = e
break_at-kept (suc m) (suc n) (q ∷ ps) p e h = break_at-kept m n ps p e h

pub break_all-kept :
    (n : ℕ) (ws : List (Direction × ℕ)) (ps : List Promise) (p : Promise)
    → get_elem? ps n ≡ some p
    → pending_count (some p) ≡ 0
    → get_elem? (break_all ws ps) n ≡ some p
unfolding break_all
break_all-kept n [] ps p e h = e
break_all-kept n (w ∷ ws) ps p e h =
    break_all-kept n ws (break_at w.1 ps) p (break_at-kept w.1 n ps p e h) h

pub get_elem?-kept :
    (n : ℕ) (ps : List Promise) (p q : Promise)
    → get_elem? ps n ≡ some p
    → get_elem? (ps ++ q ∷ []) n ≡ some p
get_elem?-kept n [] p q e = cc
get_elem?-kept zero (r ∷ ps) p q e = e
get_elem?-kept (suc n) (r ∷ ps) p q e = get_elem?-kept n ps p q e
