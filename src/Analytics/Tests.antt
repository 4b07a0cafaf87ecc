-- ===== src/Analytics/Tests.antt =====
-- The theorems about analytics at concrete texts.
use realm_cpp.Prelude.{◌≡◌, ◌≤◌, refl, [], ◌∷◌, false, none, length, arith}
use realm_cpp.Prelude.Bytes.{Bytes, codes}
use realm_cpp.Prelude.Numbers.{to_string, digits_onto}
use realm_cpp.Analytics.{print_hex, strstr, is_prefix}
use realm_cpp.Analytics.Debugger.{has, status_with}

abbrev lines : Bytes
lines = codes "Name: app"

lines_clean : has 0 lines ≡ false
unfolding has
lines_clean = refl

lines_other : strstr (codes "TracerPid:") lines ≡ none
unfolding strstr is_prefix
lines_other = refl

short_status : length (status_with lines 42 []) ≤ 4095
unfolding to_string digits_onto
short_status = omega arith

-- Two addresses with the same text.
same_text : print_hex (1 ∷ 35 ∷ []) ≡ print_hex (18 ∷ 3 ∷ [])
unfolding print_hex
same_text = refl
