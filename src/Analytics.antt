-- ===== src/Analytics.antt =====
-- src/cpprealm/analytics.cpp, on Linux: whether a debugger is attached, the name of the machine, and
-- what is sent.
--
-- The text of /proc/self/status, the network interfaces, std::hash, the JSON text and its encoding
-- in base64 are parameters. A `char` is its byte; `isspace` and `isdigit` are those of the C locale.
pub mod Debugger
pub mod Message
mod Tests
use realm_cpp.Prelude.{
  ℕ, zero, suc, ◌+◌, ◌-◌, ◌/◌, ◌%◌, List, [], ◌∷◌, ◌++◌, Bool, true, false, not, ◌&&◌, Option, none,
  some, length, replicate, get_elem?, ltb, ◌==◌, if◌then◌else◌,
}
use realm_cpp.Prelude.Bytes.{Bytes, codes, is_empty}
use realm_cpp.Prelude.Numbers.{isdigit, isspace, to_string}

-- `std::hex` of a byte.
pub hex_digit : ℕ → ℕ
hex_digit d = if ltb d 10 then b'0' + d else b'a' + (d - 10)

pub hex_byte : ℕ → Bytes
unfolding hex_digit
hex_byte b = if ltb b 16 then hex_digit b ∷ [] else hex_digit (b / 16) ∷ hex_digit (b % 16) ∷ []

pub print_hex : Bytes → Bytes
unfolding hex_byte
print_hex [] = []
print_hex (b ∷ bs) = hex_byte b ++ print_hex bs

-- The addresses of the interfaces, `none` for one that is not of AF_PACKET.
pub concatenated_mac_addresses : List (Option Bytes) → Bytes
unfolding print_hex
concatenated_mac_addresses [] = []
concatenated_mac_addresses (none ∷ ifs) = concatenated_mac_addresses ifs
concatenated_mac_addresses (some addr ∷ ifs) = print_hex addr ++ concatenated_mac_addresses ifs

-- `none` is a failure of getifaddrs.
pub get_mac_address : (Bytes → ℕ) → Option (List (Option Bytes)) → Bytes
unfolding concatenated_mac_addresses
get_mac_address hash none = codes "unknown"
get_mac_address hash (some ifs) = to_string (hash (concatenated_mac_addresses ifs))

pub is_prefix : Bytes → Bytes → Bool
is_prefix [] s = true
is_prefix (a ∷ as') [] = false
is_prefix (a ∷ as') (c ∷ cs) = (a == c) && is_prefix as' cs

pub drop : ℕ → Bytes → Bytes
drop zero s = s
drop (suc n) [] = []
drop (suc n) (c ∷ cs) = drop n cs

-- std::strstr with a text that is not empty, in a buffer whose text ends at the first zero: the
-- buffer from the occurrence on.
pub strstr : Bytes → Bytes → Option Bytes
unfolding is_prefix
strstr needle [] = none
strstr needle (c ∷ cs) =
    let rest = strstr needle cs in
    if c == 0 then none else if is_prefix needle (c ∷ cs) then some (c ∷ cs) else rest

-- `read` of at most so many bytes.
pub read_bytes : ℕ → Bytes → Bytes
read_bytes zero s = []
read_bytes (suc n) [] = []
read_bytes (suc n) (c ∷ cs) = c ∷ read_bytes n cs

-- The loop over the characters; behind the last there is a zero, which is no space.
pub first_is_nonzero : Bytes → Bool
first_is_nonzero [] = false
first_is_nonzero (c ∷ cs) =
    let rest = first_is_nonzero cs in if isspace c then rest else isdigit c && not (c == b'0')

abbrev pub tracer_pid_string : Bytes
tracer_pid_string = codes "TracerPid:"

-- `none` is a status that cannot be opened.
pub debugger_attached : Option Bytes → Bool
unfolding strstr read_bytes first_is_nonzero drop is_empty
debugger_attached none = false
debugger_attached (some status) =
    let buf = read_bytes 4095 status in
    if is_empty buf then false else elim (strstr tracer_pid_string buf) [
      | none ↦ false
      | some tracer_pid_ptr ↦ first_is_nonzero (drop (length tracer_pid_string) tracer_pid_ptr)
    ]

-- `buffer.resize(5000)` and base64_encode, which writes to its front.
pub encoded_buffer : Bytes → Bytes
encoded_buffer encoded = encoded ++ replicate (5000 - length encoded) 0

-- `while (buffer[s] != '\0') s++`, on fuel; `none` is a read behind the end.
pub count_to_zero : ℕ → Bytes → ℕ → Option ℕ
count_to_zero zero buffer s = none
count_to_zero (suc fuel) buffer s = elim (get_elem? buffer s) [
  | none ↦ none
  | some c ↦ elim (c == 0) [ true ↦ some s | false ↦ count_to_zero fuel buffer (suc s) ]
]

-- The front of a buffer to its first zero: `buffer.resize(s)`.
pub up_to_zero : ℕ → Bytes → Option Bytes
unfolding count_to_zero read_bytes
up_to_zero fuel buffer = elim (count_to_zero fuel buffer 0) [
  | none ↦ none
  | some s ↦ some (read_bytes s buffer)
]

-- The text that is sent. One round more than the buffer is long is enough.
pub base64_str : Bytes → Option Bytes
unfolding up_to_zero encoded_buffer
base64_str encoded = up_to_zero 5001 (encoded_buffer encoded)

abbrev pub metric_url : Bytes
metric_url =
    codes
      "https://data.mongodb-api.com/app/realmsdkmetrics-zmhtm/endpoint/metric_webhook/metric?data="

-- realm_analytics::send: the URL that is requested, if one is; `none` is undefined behaviour.
pub send_analytics : Option Bytes → Bool → Bytes → Option (Option Bytes)
unfolding debugger_attached base64_str
send_analytics status disabled encoded =
    if not (debugger_attached status)
    then some none
    else if disabled
    then some none
    else elim (base64_str encoded) [ none ↦ none | some text ↦ some (some (metric_url ++ text)) ]
