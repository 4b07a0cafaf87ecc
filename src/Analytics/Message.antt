-- ===== src/Analytics/Message.antt =====
-- src/cpprealm/analytics.cpp: the encoded text that is sent.
use realm_cpp.Prelude.{
  ◌&&◌, ℕ, zero, suc, ◌+◌, ◌-◌, ◌≤◌, ◌<◌, ◌≡◌, refl, sym, ap, ◌∙◌, [], ◌∷◌, ◌++◌, append-nil,
  append_assoc, Bool, true, false, none, some, length, length-snoc, get_elem?, get_elem?-behind,
  get_elem?-end, replicate, ◌==◌, arith, if◌then◌else◌, not,
}
use realm_cpp.Prelude.Bytes.{Bytes}
use realm_cpp.Analytics.{
  read_bytes, encoded_buffer, count_to_zero, up_to_zero, base64_str, send_analytics, metric_url,
  strstr, tracer_pid_string,
}
use realm_cpp.Analytics.Debugger.{has, status_with, debugger_attached-status_with}

has-head : (c : ℕ) (cs : Bytes) → has 0 (c ∷ cs) ≡ false → ((c == 0) ≡ false) × (has 0 cs ≡ false)
unfolding has
has-head c cs h = (ground arith, ground arith)

-- The next round, with the byte that was read in front.
moved :
    (fuel c : ℕ) (xs ys : Bytes)
    → count_to_zero fuel (xs ++ c ∷ ys) (suc (length xs))
      ≡ count_to_zero fuel ((xs ++ c ∷ []) ++ ys) (length (xs ++ c ∷ []))
moved fuel c xs ys =
    ap (λ s. count_to_zero fuel (xs ++ c ∷ ys) s) (sym (length-snoc xs c))
    ∙ ap (λ b. count_to_zero fuel b (length (xs ++ c ∷ []))) (sym (append_assoc xs (c ∷ []) ys))

counts :
    (fuel : ℕ) (xs e zs : Bytes)
    → length e < fuel
    → has 0 e ≡ false
    → count_to_zero fuel (xs ++ (e ++ 0 ∷ zs)) (length xs) ≡ some (length xs + length e)
unfolding count_to_zero
counts zero xs e zs h z = absurd (omega arith)
counts (suc fuel) xs [] zs h z =
    let g : get_elem? (xs ++ 0 ∷ zs) (length xs) ≡ some 0 = get_elem?-behind xs zs 0 in
    rw (count_to_zero, g) (ap some (omega arith))
counts (suc fuel) xs (c ∷ e) zs h z =
    let t = has-head c e z in
    rw (count_to_zero, get_elem?-behind xs (e ++ 0 ∷ zs) c, t.0)
      (moved fuel c xs (e ++ 0 ∷ zs)
        ∙ counts fuel (xs ++ c ∷ []) e zs (omega arith) t.1
        ∙ ap some (omega (arith, length-snoc xs c)))

runs_over :
    (fuel : ℕ) (xs e : Bytes) → has 0 e ≡ false → count_to_zero fuel (xs ++ e) (length xs) ≡ none
unfolding count_to_zero
runs_over zero xs e z = refl
runs_over (suc fuel) xs [] z =
    ap (λ b. count_to_zero (suc fuel) b (length xs)) (append-nil xs)
    ∙ rw (count_to_zero, get_elem?-end xs) refl
runs_over (suc fuel) xs (c ∷ e) z =
    let t = has-head c e z in
    rw (count_to_zero, get_elem?-behind xs e c, t.0)
      (moved fuel c xs e ∙ runs_over fuel (xs ++ c ∷ []) e t.1)

read_bytes-append : (e t : Bytes) → read_bytes (length e) (e ++ t) ≡ e
unfolding read_bytes
read_bytes-append [] [] = refl
read_bytes-append [] (c ∷ t) = refl
read_bytes-append (c ∷ e) t = ap (λ r. c ∷ r) (read_bytes-append e t)

fits :
    (fuel n : ℕ) (e : Bytes)
    → has 0 e ≡ false
    → length e < fuel
    → up_to_zero fuel (e ++ replicate (suc n) 0) ≡ some e
unfolding up_to_zero
fits fuel n e z h =
    let c : count_to_zero fuel (e ++ 0 ∷ replicate n 0) 0 ≡ some (0 + length e) =
      counts fuel [] e (replicate n 0) h z in
    let l : 0 + length e ≡ length e = omega arith in
    rw (up_to_zero, c, l) (ap some (read_bytes-append e (0 ∷ replicate n 0)))

exceeds : (fuel : ℕ) (e : Bytes) → has 0 e ≡ false → up_to_zero fuel (e ++ []) ≡ none
unfolding up_to_zero
exceeds fuel e z =
    ap (up_to_zero fuel) (append-nil e)
    ∙ (let c : count_to_zero fuel e 0 ≡ none = runs_over fuel [] e z in rw (up_to_zero, c) refl)

-- What is sent of an encoded text without a zero byte: all of it, if it is shorter than 5,000
-- bytes; of a longer one the search for the zero leaves the buffer.
pub base64_str-length :
    (e : Bytes)
    → has 0 e ≡ false
    → (length e < 5000 → base64_str e ≡ some e) × (5000 ≤ length e → base64_str e ≡ none)
unfolding base64_str encoded_buffer
base64_str-length e z = (
  (λ h.
      let k : 5000 - length e ≡ suc (4999 - length e) = omega arith in
      ap (λ m. up_to_zero 5001 (e ++ replicate m 0)) k
      ∙ fits 5001 (4999 - length e) e z (omega arith)),
  (λ h.
      let k : 5000 - length e ≡ 0 = omega arith in
      ap (λ m. up_to_zero 5001 (e ++ replicate m 0)) k ∙ exceeds 5001 e z),
)

-- Of a status as the kernel writes it and an encoded text of less than 5,000 bytes the text is sent
-- exactly if the process is traced and the analytics are not disabled.
pub send_analytics-status_with :
    (lines rest e : Bytes) (pid : ℕ) (disabled : Bool)
    → has 0 lines ≡ false
    → strstr tracer_pid_string lines ≡ none
    → length (status_with lines pid rest) ≤ 4095
    → has 0 e ≡ false
    → length e < 5000
    → send_analytics (some (status_with lines pid rest)) disabled e
      ≡ some (if not (pid == 0) && not disabled then some (metric_url ++ e) else none)
unfolding send_analytics
send_analytics-status_with lines rest e pid disabled z n h y l =
    let d = debugger_attached-status_with lines rest pid z n h in
    let b = (base64_str-length e y).0 l in
    rw (send_analytics, d, b) (cases (not (pid == 0)) disabled (metric_url ++ e))
  where
    cases :
        (attached d : Bool) (u : Bytes)
        → (if not attached then some none else if d then some none else some (some u))
          ≡ some (if attached && not d then some u else none)
    cases true true u = refl
    cases true false u = refl
    cases false d u = refl
