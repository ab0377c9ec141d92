-- ===== src/Seed/Der.antt =====
-- The DER writer and reader of src/seed.js.
pub mod Laws
use kxco_post_quantum.Prelude.{
  ℕ, zero, suc, ◌+◌, ◌-◌, ◌*◌, ◌/◌, ◌^◌, Bool, false, ◌||◌, List, [], ◌∷◌, ◌++◌, Option, none, some,
  ltb, ◌==◌, if◌then◌else◌, length, get_elem?, take, drop, bit_and, bit_or, Bytes, Result, ok, err,
  require, ◌>>=◌, ◌>>◌,
}
use kxco_post_quantum.Seed.Params.{SeedError, expected_tag, unsupported_length_encoding}

abbrev pub der_sequence : ℕ
der_sequence = 0x30

abbrev pub der_integer : ℕ
der_integer = 0x02

abbrev pub der_octet_string : ℕ
der_octet_string = 0x04

abbrev pub der_oid : ℕ
der_oid = 0x06

abbrev pub der_seed_choice : ℕ
der_seed_choice = 0x80

unfoldable pub der_length : ℕ → List ℕ
der_length n =
    if ltb n 0x80
    then n ∷ []
    else if ltb n 0x100
    then 0x81 ∷ n ∷ []
    else 0x82 ∷ n / 2 ^ 8 ∷ bit_and n 0xff ∷ []

unfoldable pub der : ℕ → List ℕ → List ℕ
unfolding der_length
der tag payload = tag ∷ der_length (length payload) ++ payload

-- `buf.subarray(from, to)` for `from ≤ to`: the end is clamped to the buffer's.
abbrev pub subarray : Bytes → ℕ → ℕ → Bytes
subarray buf from to = take (to - from) (drop from buf)

-- `buf[i] === tag`, where a read past the end is `undefined`.
abbrev pub is_byte_at : Bytes → ℕ → ℕ → Bool
is_byte_at buf i b = elim (get_elem? buf i) [ none ↦ false | some c ↦ c == b ]

-- `expectTag`: the reader is the buffer and the offset `r.i`; the new offset is returned.
unfoldable pub expect_tag : Bytes → ℕ → ℕ → Result SeedError ℕ
expect_tag buf i tag = do require (is_byte_at buf i tag) (expected_tag tag i); ok (i + 1)

-- The byte that `r.buf[i]` gives to an operator on integers: `undefined` counts as 0.
abbrev pub byte_or_zero : Option ℕ → ℕ
byte_or_zero none = 0
byte_or_zero (some b) = b

-- The loop of `readLength`, by the rounds that are left. At most three rounds are made, so
-- `length << 8` stays below 2 ^ 24 and the 32 bits of the operator do not show.
unfoldable pub length_loop : ℕ → Bytes → ℕ → ℕ → ℕ × ℕ
length_loop zero buf i n = (n, i)
length_loop (suc rounds) buf i n =
    length_loop rounds buf (i + 1) (bit_or (n * 2 ^ 8) (byte_or_zero (get_elem? buf i)))

-- `first < 0x80` fails for `undefined`, and `undefined & 0x7f` is 0.
unfoldable pub read_length : Bytes → ℕ → Result SeedError (ℕ × ℕ)
unfolding length_loop
read_length buf i = elim (get_elem? buf i) [
  | none ↦ err unsupported_length_encoding
  | some first ↦
      if ltb first 0x80
      then ok (first, i + 1)
      else if bit_and first 0x7f == 0 || ltb 3 (bit_and first 0x7f)
      then err unsupported_length_encoding
      else ok (length_loop (bit_and first 0x7f) buf (i + 1) 0)
]
