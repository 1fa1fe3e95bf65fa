-- ===== src/Adapters/Abi.antt =====
-- tools/category-adapters/src/abi.ts: the decoding of static return data.
pub mod Bounds
use mandate_x.Base.{
  ℕ, zero, suc, ◌+◌, ◌-◌, ◌*◌, ◌/◌, ◌%◌, ◌≤◌, ◌<◌, ◌≡◌, refl, Bool, true, false, not, ◌&&◌, ◌||◌,
  List, [], ◌∷◌, ◌++◌, map, Option, none, some, leb, ltb, eqb, length, every, Str, codes, ℤ, pos,
  negsuc, if◌then◌else◌, arith,
}
use mandate_x.Core.Primitives.{max_safe_integer}

abbrev pub hex_word_chars : ℕ
hex_word_chars = 64

abbrev pub uint256_ceiling : ℕ
uint256_ceiling = 115792089237316195423570985008687907853269984665640564039457584007913129639936

abbrev pub int256_sign_bit : ℕ
int256_sign_bit = 57896044618658097711785492504343953926634992332820282019728792003956564819968

abbrev pub uint160_max : ℕ
uint160_max = 1461501637330902918203684832716283019655932542975

-- The value of a digit, for a code unit that is one.
abbrev pub hex_value : ℕ → ℕ
hex_value c = if leb c b'9' then c - b'0' else if leb c b'F' then c - 55 else c - 87

abbrev pub is_hex_digit : ℕ → Bool
is_hex_digit c = leb b'0' c && leb c b'9' || leb b'A' c && leb c b'F' || leb b'a' c && leb c b'f'

abbrev pub to_lower : ℕ → ℕ
to_lower c = if leb b'A' c && leb c b'F' then c + 32 else c

-- After the prefix, when there is one.
abbrev pub strip_prefix : Str → Str
strip_prefix (a ∷ x ∷ s) = if eqb a b'0' && (eqb x b'x' || eqb x b'X') then s else a ∷ x ∷ s
strip_prefix s = s

abbrev pub lower_if_hex : Str → Option Str
lower_if_hex [] = none
lower_if_hex (c ∷ s) = if every is_hex_digit (c ∷ s) then some (map to_lower (c ∷ s)) else none

unfoldable pub normalize_hex : Str → Option Str
normalize_hex value = lower_if_hex (strip_prefix value)

-- The length of a body in words, where it is whole words.
abbrev pub words_of : Str → Option ℕ
words_of body =
    if eqb (length body % hex_word_chars) 0 then some (length body / hex_word_chars) else none

unfoldable pub word_count : Str → Option ℕ
word_count value = elim (normalize_hex value) [ none ↦ none | some body ↦ words_of body ]

-- `slice`
abbrev pub drop {ℓ} : {A : Type ℓ} → ℕ → List A → List A
drop zero l = l
drop (suc n) [] = []
drop (suc n) (x ∷ l) = drop n l

abbrev pub take {ℓ} : {A : Type ℓ} → ℕ → List A → List A
take zero l = []
take (suc n) [] = []
take (suc n) (x ∷ l) = x ∷ take n l

-- The digits of a word, the most significant one first.
unfoldable pub hex_number : ℕ → Str → ℕ
hex_number high [] = high
hex_number high (c ∷ s) = hex_number (high * 16 + hex_value c) s

abbrev pub word_at : ℕ → Str → Option ℕ
word_at index body =
    if not (eqb (length body % hex_word_chars) 0)
      || ltb max_safe_integer index
      || ltb (length body) (index * hex_word_chars + hex_word_chars)
    then none
    else some (hex_number 0 (take hex_word_chars (drop (index * hex_word_chars) body)))

unfoldable pub decode_uint256 : Str → ℕ → Option ℕ
decode_uint256 value index = elim (normalize_hex value) [
  | none ↦ none
  | some body ↦ word_at index body
]

-- Two's complement of 256 bits, of the range of 24.
unfoldable pub int24_of : ℕ → Option ℤ
int24_of raw =
    if ltb raw int256_sign_bit
    then (if leb raw 8388607 then some (pos raw) else none)
    else (if leb (uint256_ceiling - raw) 8388608
        then some (negsuc (uint256_ceiling - raw - 1))
        else none)

unfoldable pub decode_int24 : Str → ℕ → Option ℤ
decode_int24 value index = elim (decode_uint256 value index) [
  | none ↦ none
  | some raw ↦ int24_of raw
]

-- The count that the word at the offset holds, when there are so many words after it.
abbrev pub array_length_at : Str → ℕ → ℕ → Option ℕ
array_length_at value words offset =
    let length_index = offset / 32 in
    if not (eqb (offset % 32) 0) || ltb max_safe_integer length_index || leb words length_index
    then none
    else elim (decode_uint256 value length_index) [
      | none ↦ none
      | some count ↦ if ltb (words - length_index - 1) count then none else some count
    ]

unfoldable pub decode_dynamic_array_length : Str → Option ℕ
decode_dynamic_array_length value = elim (word_count value) [
  | none ↦ none
  | some words ↦ if ltb words 2 then none else elim (decode_uint256 value 0) [
    | none ↦ none
    | some offset ↦ array_length_at value words offset
  ]
]

abbrev pub zeros : ℕ → Str
zeros zero = []
zeros (suc n) = b'0' ∷ zeros n

unfoldable pub address_calldata : Str → Str → Str
address_calldata selector address = elim (normalize_hex address) [
  | none ↦ selector ++ zeros hex_word_chars
  | some body ↦
      if eqb (length body) 40
      then selector ++ (zeros 24 ++ body)
      else selector ++ zeros hex_word_chars
]
