-- ===== src/Bson/Iterators.antt =====
-- src/cpprealm/bson.cpp, bsoncxx::document::iterator.
--
-- It holds an iterator of realm-core's document, a parameter: the prefix operators give the iterator
-- afterwards, the postfix ones the iterator that they return and the one afterwards.
use realm_cpp.Prelude.{ℕ, zero, suc, ◌≡◌, refl, ap, ◌∙◌, List, [], ◌∷◌}

pub record CoreIterator {ℓ} (It : Type ℓ) : Type ℓ where
  pub next : It → It
  pub post_next : It → It × It
  pub post_previous : It → It × It

-- The operators ++it, --it, it++ and it-- of the iterator of a document.
pub data Move : Type 0 where
  pre_increment pre_decrement post_increment post_decrement : Move

module _ {ℓ} {It : Type ℓ} (core : CoreIterator It) where
  -- m_iterator afterwards
  pub move : Move → It → It
  move pre_increment m_iterator = core.next m_iterator
  move pre_decrement m_iterator = core.next m_iterator
  move post_increment m_iterator = (core.post_next m_iterator).0
  move post_decrement m_iterator = (core.post_previous m_iterator).0

  pub move_all : List Move → It → It
  move_all [] it = it
  move_all (m ∷ ms) it = move_all ms (move m it)

-- How many of the moves are prefix operators.
unfoldable pub prefixed : List Move → ℕ
prefixed [] = 0
prefixed (pre_increment ∷ ms) = suc (prefixed ms)
prefixed (pre_decrement ∷ ms) = suc (prefixed ms)
prefixed (post_increment ∷ ms) = prefixed ms
prefixed (post_decrement ∷ ms) = prefixed ms

unfoldable pub ahead {ℓ} : {It : Type ℓ} → (It → It) → ℕ → It → It
ahead next zero it = it
ahead next (suc n) it = ahead next n (next it)

module _ {ℓ} {It : Type ℓ} (core : CoreIterator It) where
  -- However an iterator is moved, it is ahead of where it was by as many entries as prefix operators
  -- were used, `--it` as much as `++it`; `it++` and `it--` leave it where it is. realm-core's postfix
  -- operators return the iterator from before.
  pub move_all-ahead :
      (next_returns : (it : It) → (core.post_next it).0 ≡ it)
      (previous_returns : (it : It) → (core.post_previous it).0 ≡ it) (ms : List Move) (it : It)
      → move_all core ms it ≡ ahead core.next (prefixed ms) it
  unfolding move_all move prefixed ahead
  move_all-ahead n p [] it = refl
  move_all-ahead n p (pre_increment ∷ ms) it = move_all-ahead n p ms (core.next it)
  move_all-ahead n p (pre_decrement ∷ ms) it = move_all-ahead n p ms (core.next it)
  move_all-ahead n p (post_increment ∷ ms) it =
      ap (move_all core ms) (n it) ∙ move_all-ahead n p ms it
  move_all-ahead n p (post_decrement ∷ ms) it =
      ap (move_all core ms) (p it) ∙ move_all-ahead n p ms it
