-- ===== src/Prelude/Numbers.antt =====
-- `std::stoi` and `std::to_string` on bytes.
use Prim.Native.Nat.{ℕ, zero, suc, ◌+◌, ◌-◌, ◌*◌, ◌/◌, ◌%◌, ◌^◌, ◌≤◌, ◌<◌}
use mathlib.Core.Path.{◌≡◌, ◌∙◌}
use mathlib.Core.Bool.{Bool, true, false, ◌&&◌, ◌||◌}
use mathlib.Core.Option.{Option, none, some}
use mathlib.Core.List.{[], ◌∷◌}
use native.Mathlib.Omega.{arith}
use realm_cpp.Prelude.Tests.{ltb, leb, ◌==◌, if◌then◌else◌}
use realm_cpp.Prelude.Lists.{}
use realm_cpp.Prelude.Bytes.{Bytes}

-- `negsuc n` is -(n + 1).
pub data ℤ : Type 0 where
  pos : ℕ → ℤ
  negsuc : ℕ → ℤ

abbrev pub IsDigit : ℕ → Type 0
IsDigit c = (b'0' ≤ c) × (c ≤ b'9')

unfoldable pub isdigit : ℕ → Bool
isdigit c = leb b'0' c && leb c b'9'

unfoldable pub isspace : ℕ → Bool
isspace c = (c == 32) || (leb 9 c && leb c 13)

-- The value of the digits at the front, after those read so far.
unfoldable pub leading_value : ℕ → Bytes → ℕ
leading_value acc [] = acc
leading_value acc (c ∷ cs) = if isdigit c then leading_value (acc * 10 + (c - b'0')) cs else acc

unfoldable pub starts_with_digit : Bytes → Bool
starts_with_digit [] = false
starts_with_digit (c ∷ cs) = isdigit c

-- `none` stands for the exception: no digit, or a value outside of `int`.
unfoldable pub stoi_unsigned : Bytes → Option ℤ
stoi_unsigned s =
    let n = leading_value 0 s in
    if starts_with_digit s then (if ltb n (2 ^ 31) then some (pos n) else none) else none

unfoldable pub negated : ℕ → ℤ
negated zero = pos 0
negated (suc n) = negsuc n

unfoldable pub stoi_negative : Bytes → Option ℤ
stoi_negative s =
    let n = leading_value 0 s in
    if starts_with_digit s then (if leb n (2 ^ 31) then some (negated n) else none) else none

unfoldable pub stoi : Bytes → Option ℤ
unfolding stoi_unsigned stoi_negative isspace leading_value starts_with_digit isdigit negated
stoi [] = none
stoi (c ∷ cs) =
    let rest = stoi cs in
    if isspace c
    then rest
    else if c == b'-'
    then stoi_negative cs
    else if c == b'+'
    then stoi_unsigned cs
    else stoi_unsigned (c ∷ cs)

-- The digits of a number before those that follow; a number has fewer digits than its successor
-- counts, so that much fuel is enough.
unfoldable pub digits_onto : ℕ → ℕ → Bytes → Bytes
digits_onto zero n rest = rest
digits_onto (suc fuel) n rest =
    let more = digits_onto fuel (n / 10) ((b'0' + n % 10) ∷ rest) in
    if ltb n 10 then (b'0' + n) ∷ rest else more

unfoldable pub to_string : ℕ → Bytes
unfolding digits_onto
to_string n = digits_onto (suc n) n []

leading_value-digits_onto :
    (fuel n : ℕ) (rest : Bytes)
    → n < fuel
    → leading_value 0 (digits_onto fuel n rest) ≡ leading_value n rest
unfolding digits_onto leading_value isdigit
leading_value-digits_onto zero n rest h = absurd (omega arith)
leading_value-digits_onto (suc fuel) n rest h =
    ground (arith, leading_value-digits_onto fuel (n / 10) ((b'0' + n % 10) ∷ rest))

starts_with_digit-digits_onto :
    (fuel n : ℕ) (rest : Bytes) → n < fuel → starts_with_digit (digits_onto fuel n rest) ≡ true
unfolding digits_onto starts_with_digit isdigit
starts_with_digit-digits_onto zero n rest h = absurd (omega arith)
starts_with_digit-digits_onto (suc fuel) n rest h =
    ground (arith, starts_with_digit-digits_onto fuel (n / 10) ((b'0' + n % 10) ∷ rest))

pub stoi_digit : (s : Bytes) → starts_with_digit s ≡ true → stoi s ≡ stoi_unsigned s
unfolding stoi starts_with_digit isdigit isspace
stoi_digit [] h = cc
stoi_digit (c ∷ cs) h = ground arith

pub stoi_unsigned_lem :
    (s : Bytes) (n : ℕ)
    → starts_with_digit s ≡ true
    → leading_value 0 s ≡ n
    → n < 2 ^ 31
    → stoi_unsigned s ≡ some (pos n)
unfolding stoi_unsigned
stoi_unsigned_lem s n d e h = ground arith

-- `stoi` reads back what `to_string` writes, for every number that is an `int`.
pub stoi-to_string : (n : ℕ) → n < 2 ^ 31 → stoi (to_string n) ≡ some (pos n)
unfolding to_string leading_value
stoi-to_string n h =
    let d = starts_with_digit-digits_onto (suc n) n [] (omega arith) in
    stoi_digit (digits_onto (suc n) n []) d
    ∙ stoi_unsigned_lem (digits_onto (suc n) n []) n d
        (leading_value-digits_onto (suc n) n [] (omega arith)) h
