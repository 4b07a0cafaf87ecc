-- ===== src/Net/Ipv4/Laws.antt =====
-- `is_valid_ipv4` of src/cpprealm/internal/networking/network_transport.cpp against a description
-- of the texts that it accepts, and on the dotted form of an address.
use realm_cpp.Prelude.{
  ℕ, ◌+◌, ◌/◌, ◌%◌, ◌≤◌, ◌≡◌, refl, sym, ◌∙◌, ◌↔◌, inl, inr, List, [], ◌∷◌, ◌++◌, Bool, true, false,
  not, append_assoc, some, length, arith, ltb, ◌==◌, if◌then◌else◌, All,
}
use realm_cpp.Prelude.Bytes.{Bytes}
use realm_cpp.Prelude.Numbers.{
  pos, isdigit, leading_value, starts_with_digit, stoi, stoi_digit, stoi_unsigned_lem,
}
use realm_cpp.Net.Ipv4.{all_digits, valid_segment, valid_segments, is_valid_ipv4}
use realm_cpp.Net.Ipv4.Split.{
  segments_of, read_segments-eq-segments_of, join, IsJoin-segments_of, IsPlain, segments_of-append,
  segments_of_last, IsJoin,
}

-- One to three decimal digits with a value of at most 255.
pub record IsOctet (seg : Bytes) : Type 0 where
  pub some_digit : 1 ≤ length seg
  pub short : length seg ≤ 3
  pub digits : All (λ c. (b'0' ≤ c) × (c ≤ b'9')) seg
  pub value : leading_value 0 seg ≤ 255

all_digits_iff : (seg : Bytes) → (all_digits seg ≡ true) ↔ All (λ c. (b'0' ≤ c) × (c ≤ b'9')) seg
unfolding all_digits isdigit
all_digits_iff [] = (λ _. tt, λ _. refl)
all_digits_iff (c ∷ seg) = ground (arith, all_digits_iff seg)

valid_segment_iff : (seg : Bytes) → (valid_segment seg ≡ true) ↔ IsOctet seg
unfolding valid_segment
valid_segment_iff seg =
    (λ h. ground (arith, all_digits_iff seg), λ h. ground (arith, all_digits_iff seg))

-- On an octet `std::stoi` gives the value that the loop tests, without an exception.
stoi-IsOctet : (seg : Bytes) → IsOctet seg → stoi seg ≡ some (pos (leading_value 0 seg))
unfolding starts_with_digit isdigit
stoi-IsOctet [] o = absurd (omega arith)
stoi-IsOctet (c ∷ cs) o =
    let d : starts_with_digit (c ∷ cs) ≡ true = ground (arith, o.digits.0) in
    stoi_digit (c ∷ cs) d ∙ stoi_unsigned_lem (c ∷ cs) _ d refl (omega arith)

valid_segments_iff : (segs : List Bytes) → (valid_segments segs ≡ true) ↔ All IsOctet segs
unfolding valid_segments
valid_segments_iff [] = (λ _. tt, λ _. refl)
valid_segments_iff (s ∷ segs) = ground (arith, valid_segments_iff segs, valid_segment_iff s)

-- The texts accepted: four octets between dots, with or without one more dot at the end.
pub record IsQuad (ip : Bytes) : Type 0 where
  pub a : Bytes
  pub b : Bytes
  pub c : Bytes
  pub d : Bytes
  pub octets : All IsOctet (a ∷ b ∷ c ∷ d ∷ [])
  pub shape : IsJoin b'.' (a ∷ b ∷ c ∷ d ∷ []) ip

abbrev verdict : List Bytes → Bool
verdict segments = if not (length segments == 4) then false else valid_segments segments

is_valid_ipv4-eq-verdict : (ip : Bytes) → is_valid_ipv4 ip ≡ verdict (segments_of b'.' ip)
unfolding is_valid_ipv4
is_valid_ipv4-eq-verdict ip = rw (read_segments-eq-segments_of (length ip) b'.' ip (omega arith))

IsQuad-verdict : (ss : List Bytes) (ip : Bytes) → IsJoin b'.' ss ip → verdict ss ≡ true → IsQuad ip
IsQuad-verdict (a ∷ b ∷ c ∷ d ∷ []) ip j h = record {
  a = a;
  b = b;
  c = c;
  d = d;
  octets = (valid_segments_iff (a ∷ b ∷ c ∷ d ∷ [])).0 h;
  shape = j;
}
IsQuad-verdict [] ip j h = cc
IsQuad-verdict (a ∷ []) ip j h = cc
IsQuad-verdict (a ∷ b ∷ []) ip j h = cc
IsQuad-verdict (a ∷ b ∷ c ∷ []) ip j h = cc
IsQuad-verdict (a ∷ b ∷ c ∷ d ∷ e ∷ rest) ip j h = ground arith

IsPlain-digits : (seg : Bytes) → All (λ c. (b'0' ≤ c) × (c ≤ b'9')) seg → IsPlain b'.' seg
IsPlain-digits [] h = tt
IsPlain-digits (c ∷ seg) h = (ground arith, IsPlain-digits seg h.1)

last_octet :
    (d : Bytes)
    → IsOctet d
    → (segments_of b'.' d ≡ d ∷ []) × (segments_of b'.' (d ++ b'.' ∷ []) ≡ d ∷ [])
last_octet [] o = absurd (omega arith)
last_octet (c ∷ s) o = segments_of_last b'.' c s (IsPlain-digits (c ∷ s) o.digits)

segments_of_three :
    (a b c rest : Bytes)
    → IsOctet a
    → IsOctet b
    → IsOctet c
    → segments_of b'.' (a ++ b'.' ∷ (b ++ b'.' ∷ (c ++ b'.' ∷ rest)))
      ≡ a ∷ b ∷ c ∷ segments_of b'.' rest
segments_of_three a b c rest p q r = simp (
  segments_of-append b'.' a _ (IsPlain-digits a p.digits),
  segments_of-append b'.' b _ (IsPlain-digits b q.digits),
  segments_of-append b'.' c _ (IsPlain-digits c r.digits),
)

segments_of_quad :
    (a b c d ip : Bytes)
    → All IsOctet (a ∷ b ∷ c ∷ d ∷ [])
    → IsJoin b'.' (a ∷ b ∷ c ∷ d ∷ []) ip
    → segments_of b'.' ip ≡ a ∷ b ∷ c ∷ d ∷ []
segments_of_quad a b c d ip o (inl e) =
    rw (← e, segments_of_three a b c d o.0 o.1.0 o.1.1.0, (last_octet d o.1.1.1.0).0)
segments_of_quad a b c d ip o (inr e) = rw (← e) (
    simp append_assoc
      (rw (segments_of_three a b c _ o.0 o.1.0 o.1.1.0, (last_octet d o.1.1.1.0).1)))

-- `is_valid_ipv4` accepts exactly four octets separated by dots, with or without one dot more at
-- the end.
pub is_valid_ipv4_iff : (ip : Bytes) → (is_valid_ipv4 ip ≡ true) ↔ IsQuad ip
is_valid_ipv4_iff ip = (
  λ h. IsQuad-verdict _ ip (IsJoin-segments_of b'.' ip) (sym (is_valid_ipv4-eq-verdict ip) ∙ h),
  λ q.
      rw (is_valid_ipv4-eq-verdict ip, segments_of_quad q.a q.b q.c q.d ip q.octets q.shape)
        ((valid_segments_iff _).1 q.octets),
)

-- A number below 1000 in decimal, without leading zeros.
unfoldable pub decimal : ℕ → Bytes
decimal n =
    if ltb n 10
    then (b'0' + n) ∷ []
    else if ltb n 100
    then (b'0' + n / 10) ∷ (b'0' + n % 10) ∷ []
    else (b'0' + n / 100) ∷ (b'0' + n / 10 % 10) ∷ (b'0' + n % 10) ∷ []

unfoldable pub dotted : ℕ → ℕ → ℕ → ℕ → Bytes
dotted a b c d = join b'.' (decimal a ∷ decimal b ∷ decimal c ∷ decimal d ∷ [])

decimal-IsOctet : (n : ℕ) → n ≤ 255 → IsOctet (decimal n)
unfolding decimal leading_value isdigit
decimal-IsOctet n h = ground arith

-- Every address of four bytes is accepted in its dotted form, and also with a dot behind it.
pub is_valid_ipv4-dotted :
    (a b c d : ℕ)
    → All (λ n. n ≤ 255) (a ∷ b ∷ c ∷ d ∷ [])
    → (is_valid_ipv4 (dotted a b c d) ≡ true) × (is_valid_ipv4 (dotted a b c d ++ b'.' ∷ []) ≡ true)
unfolding dotted
is_valid_ipv4-dotted a b c d h = (
  (is_valid_ipv4_iff _).1 (record {
    a = decimal a;
    b = decimal b;
    c = decimal c;
    d = decimal d;
    octets = octets;
    shape = inl refl;
  }),
  (is_valid_ipv4_iff _).1 (record {
    a = decimal a;
    b = decimal b;
    c = decimal c;
    d = decimal d;
    octets = octets;
    shape = inr refl;
  }),
)
  where
    octets : All IsOctet (decimal a ∷ decimal b ∷ decimal c ∷ decimal d ∷ [])
    octets = (
      decimal-IsOctet a h.0,
      (decimal-IsOctet b h.1.0, (decimal-IsOctet c h.1.1.0, (decimal-IsOctet d h.1.1.1.0, tt))),
    )
