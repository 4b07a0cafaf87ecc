-- ===== src/Managed/Text/Steps.antt =====
-- src/cpprealm/managed_string.cpp: managed strings against strings in memory.
use realm_cpp.Prelude.{
  ℕ, ◌+◌, ◌-◌, ◌%◌, ◌^◌, ◌<◌, ◌≡◌, refl, sym, ap, ◌∙◌, inl, inr, List, [], ◌∷◌, ◌++◌, true, false,
  Option, none, some, ◌==◌, length, arith, Bool-cases, Option-cases, ==_iff, ==_refl,
}
use realm_cpp.Prelude.Bytes.{Bytes}
use realm_cpp.Managed.Text.{
  Texts, set, without_last, with_char, clear, push_back, append, pop_back, size, back, assign_char,
  Step, clears, pops_back, pushes_back, assigns_back, appends, assigns, step, run,
}

with_char-last :
    (c d : ℕ) (ds : Bytes)
    → with_char (length ds) c (d ∷ ds)
      ≡ elim (without_last (d ∷ ds)) [ none ↦ none | some v ↦ some (v ++ c ∷ []) ]
unfolding with_char without_last
with_char-last c d [] = refl
with_char-last c d (e ∷ ds) = elim (Option-cases (without_last (e ∷ ds))) [
  | inl n ↦ rw (with_char-last c e ds, n)
  | inr (w, n) ↦ rw (with_char-last c e ds, n)
]

-- The same on a std::string in memory.
unfoldable pub in_memory : Step → Bytes → Option Bytes
in_memory clears v = some []
in_memory pops_back v = without_last v
in_memory (pushes_back c) v = some (v ++ c ∷ [])
in_memory (assigns_back c) v = with_char ((length v + (2 ^ 64 - 1)) % 2 ^ 64) c v
in_memory (appends w) v = some (v ++ w)
in_memory (assigns idx c) v = with_char idx c v

-- The steps on one column, with a string in memory.
unfoldable pub run_memory : ℕ → List (ℕ × Step) → Bytes → Option Bytes
run_memory k [] v = some v
run_memory k ((key, s) ∷ ss) v = elim (k == key) [
  | true ↦ elim (in_memory s v) [ none ↦ none | some w ↦ run_memory k ss w ]
  | false ↦ run_memory k ss v
]

abbrev pub Returns : List (ℕ × Step) → Texts → Type 0
Returns ss obj = (k : ℕ) → (v : Bytes) × (run_memory k ss (obj k) ≡ some v)

step-in_memory :
    (key : ℕ) (s : Step) (obj : Texts) (w : Bytes)
    → in_memory s (obj key) ≡ some w
    → step key s obj ≡ some (set key w obj)
unfolding step in_memory clear push_back append pop_back assign_char back size
step-in_memory key clears obj w e = ground (arith, e)
step-in_memory key pops_back obj w e = rw (step, pop_back, e)
step-in_memory key (pushes_back c) obj w e = ground (arith, e)
step-in_memory key (assigns_back c) obj w e = rw (step, assign_char, back, size, e)
step-in_memory key (appends v) obj w e = ground (arith, e)
step-in_memory key (assigns idx c) obj w e = rw (step, assign_char, e)

bind-some :
    (o : Option Bytes) (f : Bytes → Option Bytes) (u : Bytes)
    → elim o [ none ↦ none | some w ↦ f w ] ≡ some u
    → (w : Bytes) × (o ≡ some w)
bind-some none f u e = cc
bind-some (some w) f u e = (w, refl)

run_memory-here :
    (key : ℕ) (s : Step) (ss : List (ℕ × Step)) (v : Bytes)
    → run_memory key ((key, s) ∷ ss) v
      ≡ elim (in_memory s v) [ none ↦ none | some w ↦ run_memory key ss w ]
unfolding run_memory
run_memory-here key s ss v = rw (run_memory, ==_refl key)

run_memory-set :
    (key : ℕ) (s : Step) (ss : List (ℕ × Step)) (obj : Texts) (w : Bytes)
    → in_memory s (obj key) ≡ some w
    → (k : ℕ) → run_memory k ((key, s) ∷ ss) (obj k) ≡ run_memory k ss (set key w obj k)
unfolding run_memory
run_memory-set key s ss obj w e k = elim (Bool-cases (k == key)) [
  | inl t ↦ rw (run_memory, t, ap obj ((==_iff k key).0 t), e)
  | inr t ↦ rw (run_memory, t)
]

-- If the steps on each column, done with a std::string in memory, are defined, then the managed
-- strings can do them all, and each column then holds exactly the string in memory.
pub run-run_memory :
    (ss : List (ℕ × Step)) (obj : Texts)
    → Returns ss obj
    → (next : Texts) × (run ss obj ≡ some next)
      × ((k : ℕ) → run_memory k ss (obj k) ≡ some (next k))
unfolding run run_memory
run-run_memory [] obj h = (obj, refl, λ k. refl)
run-run_memory ((key, s) ∷ ss) obj h =
    let w =
      bind-some (in_memory s (obj key)) (λ v. run_memory key ss v) (h key).0
        (sym (run_memory-here key s ss (obj key)) ∙ (h key).1) in
    let same = run_memory-set key s ss obj w.0 w.1 in
    let r = run-run_memory ss (set key w.0 obj) (λ k. ((h k).0, sym (same k) ∙ (h k).1)) in
    (r.0, rw (run, step-in_memory key s obj w.0 w.1, r.1), λ k. same k ∙ r.2 k)

char-last :
    (c : ℕ) (v : Bytes)
    → length v < 2 ^ 64
    → with_char ((length v + (2 ^ 64 - 1)) % 2 ^ 64) c v
      ≡ elim (without_last v) [ none ↦ none | some w ↦ some (w ++ c ∷ []) ]
unfolding without_last with_char
char-last c [] h = refl
char-last c (d ∷ ds) h =
    ap (λ (i : ℕ). with_char i c (d ∷ ds)) (omega arith) ∙ with_char-last c d ds

-- Assigning to the reference that `back` returns replaces the last byte of a string of fewer than
-- 2^64 bytes; for an empty string it is undefined.
pub step-assigns_back :
    (key c : ℕ) (obj : Texts)
    → length (obj key) < 2 ^ 64
    → step key (assigns_back c) obj
      ≡ elim (without_last (obj key)) [ none ↦ none | some w ↦ some (set key (w ++ c ∷ []) obj) ]
unfolding step assign_char back size
step-assigns_back key c obj h =
    let e = char-last c (obj key) h in
    elim (Option-cases (without_last (obj key))) [
      | inl n ↦ rw (step, assign_char, back, size, e, n)
      | inr (w, n) ↦ rw (step, assign_char, back, size, e, n)
    ]
