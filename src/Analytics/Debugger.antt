-- ===== src/Analytics/Debugger.antt =====
-- src/cpprealm/analytics.cpp: debugger_attached on the text that the kernel writes.
use realm_cpp.Prelude.{
  ℕ, zero, suc, ◌+◌, ◌/◌, ◌%◌, ◌≤◌, ◌<◌, ◌≡◌, refl, ap, ◌∙◌, inl, inr, [], ◌∷◌, ◌++◌, Bool, true,
  false, not, ◌&&◌, none, some, length, ltb, ◌==◌, Bool-cases, arith, if◌then◌else◌,
}
use realm_cpp.Prelude.Bytes.{Bytes, is_empty}
use realm_cpp.Prelude.Numbers.{isdigit, isspace, to_string, digits_onto}
use realm_cpp.Analytics.{
  is_prefix, drop, strstr, read_bytes, first_is_nonzero, tracer_pid_string, debugger_attached,
}

-- No zero and no newline.
unfoldable pub has : ℕ → Bytes → Bool
has x [] = false
has x (c ∷ cs) = let rest = has x cs in if c == x then true else rest

read_bytes-all : (n : ℕ) (s : Bytes) → length s ≤ n → read_bytes n s ≡ s
unfolding read_bytes
read_bytes-all zero [] h = refl
read_bytes-all zero (c ∷ cs) h = absurd (omega arith)
read_bytes-all (suc n) [] h = refl
read_bytes-all (suc n) (c ∷ cs) h = ap (λ r. c ∷ r) (read_bytes-all n cs (omega arith))

is_prefix-newline :
    (n s t : Bytes) → has b'\n' n ≡ false → is_prefix n (s ++ b'\n' ∷ t) ≡ is_prefix n s
unfolding is_prefix has
is_prefix-newline [] s t h = refl
is_prefix-newline (a ∷ as') [] t h = ground arith
is_prefix-newline (a ∷ as') (c ∷ cs) t h = ground (arith, is_prefix-newline as' cs t)

is_prefix-append : (n u : Bytes) → is_prefix n (n ++ u) ≡ true
unfolding is_prefix
is_prefix-append [] u = refl
is_prefix-append (a ∷ as') u = ground (arith, is_prefix-append as' u)

drop-append : (n u : Bytes) → drop (length n) (n ++ u) ≡ u
unfolding drop
drop-append [] u = refl
drop-append (a ∷ as') u = drop-append as' u

-- A text of lines without the needle is passed over.
strstr-lines :
    (n s t : Bytes)
    → has b'\n' n ≡ false
    → has 0 s ≡ false
    → strstr n s ≡ none
    → strstr n (s ++ b'\n' ∷ t) ≡ strstr n (b'\n' ∷ t)
unfolding strstr has
strstr-lines n [] t h z e = refl
strstr-lines n (c ∷ cs) t h z e =
    ground (arith, strstr-lines n cs t, is_prefix-newline n (c ∷ cs) t h)

-- The first digit of a number is 0 for 0 only.
digits-first :
    (fuel n : ℕ) (rest : Bytes)
    → n < fuel
    → (c : ℕ) × (cs : Bytes) × (digits_onto fuel n rest ≡ c ∷ cs)
      × (isspace c ≡ false)
      × ((isdigit c && not (c == b'0')) ≡ not (n == 0))
unfolding digits_onto isspace isdigit
digits-first zero n rest h = absurd (omega arith)
digits-first (suc fuel) n rest h = elim (Bool-cases (ltb n 10)) [
  | inl t ↦ (b'0' + n, rest, rw (digits_onto, t) refl, ground arith, ground arith)
  | inr t ↦
      let r = digits-first fuel (n / 10) ((b'0' + n % 10) ∷ rest) (ground arith) in
      (r.0, r.1, rw (digits_onto, t) r.2, r.3, r.4 ∙ ground arith)
]

is_empty-behind : (s t : Bytes) (c : ℕ) → is_empty (s ++ c ∷ t) ≡ false
unfolding is_empty
is_empty-behind [] t c = refl
is_empty-behind (x ∷ s) t c = refl

first_is_nonzero-to_string :
    (pid : ℕ) (rest : Bytes) → first_is_nonzero (b'\t' ∷ (to_string pid ++ rest)) ≡ not (pid == 0)
unfolding first_is_nonzero isspace to_string
first_is_nonzero-to_string pid rest =
    let d = digits-first (suc pid) pid [] (omega arith) in
    ap (λ s. first_is_nonzero (s ++ rest)) d.2 ∙ rw (first_is_nonzero, d.3) d.4

-- The lines of the status before, the line of the tracer, and what follows.
abbrev pub status_with : Bytes → ℕ → Bytes → Bytes
status_with lines pid rest =
    lines ++ b'\n' ∷ (tracer_pid_string ++ b'\t' ∷ (to_string pid ++ b'\n' ∷ rest))

-- For a status of at most 4,095 bytes in which the line of the tracer's process id stands behind
-- other lines, which have no zero byte and do not mention it, a debugger is attached exactly if
-- the process id is not 0.
pub debugger_attached-status_with :
    (lines rest : Bytes) (pid : ℕ)
    → has 0 lines ≡ false
    → strstr tracer_pid_string lines ≡ none
    → length (status_with lines pid rest) ≤ 4095
    → debugger_attached (some (status_with lines pid rest)) ≡ not (pid == 0)
unfolding debugger_attached strstr is_prefix drop has
debugger_attached-status_with lines rest pid z e h =
    let line = tracer_pid_string ++ b'\t' ∷ (to_string pid ++ b'\n' ∷ rest) in
    let found : strstr tracer_pid_string (status_with lines pid rest) ≡ some line =
      strstr-lines tracer_pid_string lines line refl z e in
    let full : is_empty (status_with lines pid rest) ≡ false = is_empty-behind lines line b'\n' in
    rw (debugger_attached, read_bytes-all 4095 (status_with lines pid rest) h, full, found)
      (first_is_nonzero-to_string pid (b'\n' ∷ rest))
