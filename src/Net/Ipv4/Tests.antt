-- ===== src/Net/Ipv4/Tests.antt =====
-- `is_valid_ipv4` on concrete texts, and its theorems at concrete inputs.
use realm_cpp.Prelude.{◌≡◌, ◌↔◌, refl, true, false}
use realm_cpp.Prelude.Bytes.{codes}
use realm_cpp.Prelude.Numbers.{isdigit, leading_value}
use realm_cpp.Net.Ipv4.{
  is_valid_ipv4, read_segments, take_segment, getline, valid_segments, valid_segment, all_digits,
}
use realm_cpp.Net.Ipv4.Laws.{IsQuad, is_valid_ipv4_iff}

verdicts :
    (is_valid_ipv4 (codes "192.168.0.1") ≡ true)
    × (is_valid_ipv4 (codes "192.168.0.1.") ≡ true)
    × (is_valid_ipv4 (codes "192.168.0.256") ≡ false)
    × (is_valid_ipv4 (codes "192.168..1") ≡ false)
    × (is_valid_ipv4 (codes "1.2.3.4..") ≡ false)
    × (is_valid_ipv4 (codes "localhost") ≡ false)
unfolding is_valid_ipv4 read_segments take_segment getline valid_segments valid_segment all_digits
    isdigit leading_value
verdicts = (refl, refl, refl, refl, refl, refl)

is_valid_ipv4_iff_example : (is_valid_ipv4 (codes "10.0.0.7.") ≡ true) ↔ IsQuad (codes "10.0.0.7.")
is_valid_ipv4_iff_example = is_valid_ipv4_iff (codes "10.0.0.7.")
