-- ===== src/Core/Texts.antt =====
-- tools/marketplace-core/src/primitives.ts: the schemas of texts. A schema that trims, lower-cases or
-- sorts is the test of the values that it accepts and leaves as they are.
use mandate_x.Base.{
  ℕ, Bool, true, false, not, ◌&&◌, ◌||◌, List, [], ◌∷◌, leb, eqb, length, every, Str, Ordering,
}
use mandate_x.Core.Primitives.{compare_canonical_strings}

abbrev is_digit : ℕ → Bool
is_digit c = leb b'0' c && leb c b'9'

abbrev is_lower : ℕ → Bool
is_lower c = leb b'a' c && leb c b'z'

abbrev is_upper : ℕ → Bool
is_upper c = leb b'A' c && leb c b'Z'

abbrev is_alphanumeric : ℕ → Bool
is_alphanumeric c = is_digit c || is_lower c || is_upper c

abbrev is_hex : ℕ → Bool
is_hex c = is_digit c || leb b'a' c && leb c b'f'

-- A first character of one class and further ones of another.
starts_and_goes : (ℕ → Bool) → (ℕ → Bool) → Str → Bool
starts_and_goes first further [] = false
starts_and_goes first further (c ∷ s) = first c && every further s

-- /^[A-Za-z0-9][A-Za-z0-9._:-]*$/, one to 128 characters
unfoldable pub canonical_identifier_schema : Str → Bool
unfolding starts_and_goes
canonical_identifier_schema s =
    leb (length s) 128
    && starts_and_goes is_alphanumeric
        (λ c. is_alphanumeric c || eqb c b'.' || eqb c b'_' || eqb c b':' || eqb c b'-') s

-- /^[a-z0-9][a-z0-9._-]*$/, one to 64 characters
unfoldable pub protocol_id_schema : Str → Bool
unfolding starts_and_goes
protocol_id_schema s =
    leb (length s) 64
    && starts_and_goes (λ c. is_digit c || is_lower c)
        (λ c. is_digit c || is_lower c || eqb c b'.' || eqb c b'_' || eqb c b'-') s

-- "0x" and that many lower-case hexadecimal digits
hex_of_length : ℕ → Str → Bool
hex_of_length n (zero_digit ∷ x ∷ s) =
    eqb zero_digit b'0' && eqb x b'x' && eqb (length s) n && every is_hex s
hex_of_length n _ = false

unfoldable pub address_schema : Str → Bool
unfolding hex_of_length
address_schema s = hex_of_length 40 s

unfoldable pub bytes32_schema : Str → Bool
unfolding hex_of_length
bytes32_schema s = hex_of_length 64 s

unfoldable pub sha256_schema : Str → Bool
sha256_schema s = eqb (length s) 64 && every is_hex s

-- The white space and line ends that `trim` takes away.
abbrev is_space : ℕ → Bool
is_space c =
    leb 9 c && leb c 13
    || eqb c 32
    || eqb c 160
    || eqb c 5760
    || leb 8192 c && leb c 8202
    || eqb c 8232
    || eqb c 8233
    || eqb c 8239
    || eqb c 8287
    || eqb c 12288
    || eqb c 65279

abbrev last_is_space : Str → Bool
last_is_space [] = false
last_is_space (c ∷ []) = is_space c
last_is_space (c ∷ d ∷ s) = last_is_space (d ∷ s)

abbrev first_is_space : Str → Bool
first_is_space [] = false
first_is_space (c ∷ s) = is_space c

-- `z.string().trim().min(1).max(most)`
unfoldable pub trimmed_schema : ℕ → Str → Bool
trimmed_schema most s =
    leb 1 (length s) && leb (length s) most && not (first_is_space s) && not (last_is_space s)

unfoldable pub call_id_schema : Str → Bool
call_id_schema s = trimmed_schema 256 s

-- No text twice, and in the order that `sortUnique` gives.
is_sort_unique : List Str → Bool
is_sort_unique (s ∷ t ∷ rest) = elim (compare_canonical_strings s t) [
  | Ordering.lt ↦ is_sort_unique (t ∷ rest)
  | _ ↦ false
]
is_sort_unique _ = true

-- `uniqueSortedAddressesSchema` and its like: one to `most` texts of a kind.
unfoldable pub unique_sorted_schema : ℕ → (Str → Bool) → List Str → Bool
unfolding is_sort_unique
unique_sorted_schema most element values =
    leb 1 (length values)
    && leb (length values) most
    && every element values
    && is_sort_unique values
