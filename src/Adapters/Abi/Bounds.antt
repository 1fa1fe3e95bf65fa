-- ===== src/Adapters/Abi/Bounds.antt =====
-- tools/category-adapters/src/abi.ts: the values that a word can hold.
use mandate_x.Base.{
  ℕ, zero, suc, ◌+◌, ◌*◌, ◌≤◌, ◌<◌, ◌≡◌, subst, Bool-cases, true, List, [], ◌∷◌, map, All, Option,
  some, Option-cases, inl, inr, every, Str, arith,
}
use mandate_x.Adapters.Abi.{
  hex_value, is_hex_digit, to_lower, normalize_hex, drop, take, hex_number, word_at, decode_uint256,
  uint256_ceiling, hex_word_chars, strip_prefix, lower_if_hex,
}

abbrev IsDigit : ℕ → Type 0
IsDigit c = hex_value c ≤ 15

to_lower-IsDigit : (c : ℕ) → is_hex_digit c ≡ true → IsDigit (to_lower c)
to_lower-IsDigit c h = ground arith

map-to_lower-All : (s : Str) → every is_hex_digit s ≡ true → All IsDigit (map to_lower s)
map-to_lower-All [] h = tt
map-to_lower-All (c ∷ s) h = (to_lower-IsDigit c (ground arith), map-to_lower-All s (ground arith))

All-drop {ℓ κ} : {A : Type ℓ} (P : A → Type κ) (n : ℕ) (l : List A) → All P l → All P (drop n l)
All-drop P zero l h = h
All-drop P (suc n) [] h = tt
All-drop P (suc n) (x ∷ l) h = All-drop P n l h.1

-- The first digits, of which there are so many at most.
abbrev scaled : ℕ → ℕ → ℕ
scaled bound zero = bound
scaled bound (suc n) = scaled (bound * 16) n

scaled_above : (bound n : ℕ) → bound ≤ scaled bound n
scaled_above bound zero = omega arith
scaled_above bound (suc n) = omega (arith, scaled_above (bound * 16) n)

hex_number_bound :
    (n bound high : ℕ) (s : Str)
    → All IsDigit s
    → high < bound
    → hex_number high (take n s) < scaled bound n
unfolding hex_number
hex_number_bound zero bound high s h below = below
hex_number_bound (suc n) bound high [] h below = omega (arith, scaled_above (bound * 16) n)
hex_number_bound (suc n) bound high (c ∷ s) h below =
    hex_number_bound n (bound * 16) (high * 16 + hex_value c) s h.1 (omega (arith, h.0))

some_injective {ℓ} : {A : Type ℓ} (x y : A) → Path (Option A) (some x) (some y) → x ≡ y
some_injective x y h = cc

lower_if_hex-All : (s body : Str) → lower_if_hex s ≡ some body → All IsDigit body
lower_if_hex-All [] body h = cc
lower_if_hex-All (c ∷ s) body h = elim (Bool-cases (every is_hex_digit (c ∷ s))) [
  | inl digits ↦
      let same : some (map to_lower (c ∷ s)) ≡ some body = (ground (arith, digits)) in
      subst (All IsDigit) (some_injective (map to_lower (c ∷ s)) body same)
        (map-to_lower-All (c ∷ s) digits)
  | inr other ↦ ground (arith, other)
]

normalize_hex-All : (value body : Str) → normalize_hex value ≡ some body → All IsDigit body
unfolding normalize_hex
normalize_hex-All value body h = lower_if_hex-All (strip_prefix value) body h

word_at_bound :
    (index n : ℕ) (body : Str)
    → All IsDigit body
    → word_at index body ≡ some n
    → n < uint256_ceiling
word_at_bound index n body h e =
    let below =
      hex_number_bound 64 1 0 (drop (index * hex_word_chars) body)
        (All-drop IsDigit (index * hex_word_chars) body h) (omega arith) in
    ground (arith, below)

-- What a word decodes to is below 2^256.
pub decode_uint256_bound :
    (value : Str) (index n : ℕ) → decode_uint256 value index ≡ some n → n < uint256_ceiling
unfolding decode_uint256
decode_uint256_bound value index n h = elim (Option-cases (normalize_hex value)) [
  | inl lost ↦ ground arith
  | inr body ↦
      word_at_bound index n body.0 (normalize_hex-All value body.0 body.1) (ground (arith, body.1))
]
