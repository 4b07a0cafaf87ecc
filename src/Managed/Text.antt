-- ===== src/Managed/Text.antt =====
-- src/cpprealm/managed_string.cpp: managed strings, which read the column, change the copy and write
-- it back.
--
-- `none` is undefined behaviour of std::string: pop_back of an empty one, or an index out of range.
-- A `size_t` has 64 bits.
pub mod Steps
mod Tests
use realm_cpp.Prelude.{
  ℕ, zero, suc, ◌+◌, ◌-◌, ◌%◌, ◌^◌, List, [], ◌∷◌, ◌++◌, Bool, true, false, Option, none, some,
  ◌==◌, length, get_elem?, if◌then◌else◌,
}
use realm_cpp.Prelude.Bytes.{Bytes}

-- The string columns of an object.
abbrev pub Texts : Type 0
Texts = ℕ → Bytes

-- managed<std::string>::get and set
abbrev pub get : ℕ → Texts → Bytes
get key obj = obj key

abbrev pub set : ℕ → Bytes → Texts → Texts
set key v obj k = if k == key then v else obj k

-- std::string::pop_back
unfoldable pub without_last : Bytes → Option Bytes
without_last [] = none
without_last (c ∷ []) = some []
without_last (c ∷ d ∷ cs) = elim (without_last (d ∷ cs)) [
  | none ↦ none
  | some rest ↦ some (c ∷ rest)
]

-- `value[idx] = c` on a std::string. The terminator may be overwritten by itself.
unfoldable pub with_char : ℕ → ℕ → Bytes → Option Bytes
with_char zero c [] = if c == 0 then some [] else none
with_char (suc idx) c [] = none
with_char zero c (d ∷ ds) = some (c ∷ ds)
with_char (suc idx) c (d ∷ ds) = elim (with_char idx c ds) [
  | none ↦ none
  | some rest ↦ some (d ∷ rest)
]

pub clear : ℕ → Texts → Texts
clear key obj = set key [] obj

pub push_back : ℕ → ℕ → Texts → Texts
push_back key c obj = set key (get key obj ++ c ∷ []) obj

-- append and operator+=
pub append : ℕ → Bytes → Texts → Texts
append key v obj = set key (get key obj ++ v) obj

pub pop_back : ℕ → Texts → Option Texts
pop_back key obj = elim (without_last (get key obj)) [ none ↦ none | some v ↦ some (set key v obj) ]

pub size : ℕ → Texts → ℕ
size key obj = length (get key obj)

-- The index of the reference that `back` returns.
pub back : ℕ → Texts → ℕ
unfolding size
back key obj = (size key obj + (2 ^ 64 - 1)) % 2 ^ 64

-- reference::operator=(char), on the reference that at, operator[], front or back returned.
pub assign_char : ℕ → ℕ → ℕ → Texts → Option Texts
assign_char key idx c obj = elim (with_char idx c (get key obj)) [
  | none ↦ none
  | some v ↦ some (set key v obj)
]

-- const_reference::operator char
pub read_char : ℕ → ℕ → Texts → Option ℕ
read_char key idx obj = if idx == length (get key obj) then some 0 else get_elem? (get key obj) idx

-- What a program does with managed strings.
pub data Step : Type 0 where
  clears pops_back : Step
  pushes_back assigns_back : ℕ → Step
  appends : Bytes → Step
  assigns : ℕ → ℕ → Step

pub step : ℕ → Step → Texts → Option Texts
unfolding clear push_back append pop_back assign_char back
step key clears obj = some (clear key obj)
step key pops_back obj = pop_back key obj
step key (pushes_back c) obj = some (push_back key c obj)
step key (assigns_back c) obj = assign_char key (back key obj) c obj
step key (appends v) obj = some (append key v obj)
step key (assigns idx c) obj = assign_char key idx c obj

pub run : List (ℕ × Step) → Texts → Option Texts
run [] obj = some obj
run ((key, s) ∷ ss) obj = elim (step key s obj) [ none ↦ none | some next ↦ run ss next ]
