-- ===== src/Codec/Hex/Laws.antt =====
-- Hexadecimal: what is written can be read back, and what is read is what was written up to case.
use kxco_post_quantum.Prelude.{
  ℕ, ◌+◌, ◌*◌, ◌/◌, ◌%◌, ◌<◌, ◌≡◌, refl, ap, true, [], ◌∷◌, arith, length, all, All, Text, Bytes,
  IsByte, ok,
}
use kxco_post_quantum.Codec.Hex.{
  hex_digit, to_string16, pad_start2, bytes_to_hex, is_hex, hex_value, parse_pairs, hex_to_bytes,
}

-- Each byte is written as two digits, in the order high, low.
pub digits_of_byte :
    (b : ℕ) → b < 256 → pad_start2 (to_string16 b) ≡ hex_digit (b / 16) ∷ hex_digit (b % 16) ∷ []
unfolding pad_start2 to_string16
digits_of_byte b h = ground arith

hex_digit-is_hex : (d : ℕ) → d < 16 → is_hex (hex_digit d) ≡ true
unfolding hex_digit is_hex
hex_digit-is_hex d h = ground arith

hex_value-hex_digit : (d : ℕ) → d < 16 → hex_value (hex_digit d) ≡ d
unfolding hex_digit hex_value
hex_value-hex_digit d h = ground arith

pub bytes_to_hex-cons :
    (b : ℕ) (bs : Bytes)
    → b < 256
    → bytes_to_hex (b ∷ bs) ≡ hex_digit (b / 16) ∷ hex_digit (b % 16) ∷ bytes_to_hex bs
unfolding bytes_to_hex
bytes_to_hex-cons b bs h = rw (digits_of_byte b h)

pub length-bytes_to_hex : (bs : Bytes) → All IsByte bs → length (bytes_to_hex bs) ≡ 2 * length bs
length-bytes_to_hex [] h = unfold bytes_to_hex in omega arith
length-bytes_to_hex (b ∷ bs) h =
    rw (bytes_to_hex-cons b bs h.0) (omega (arith, length-bytes_to_hex bs h.1))

pub bytes_to_hex-all_hex : (bs : Bytes) → All IsByte bs → all is_hex (bytes_to_hex bs) ≡ true
bytes_to_hex-all_hex [] h = unfold bytes_to_hex in refl
bytes_to_hex-all_hex (b ∷ bs) h =
    rw
      (
        bytes_to_hex-cons b bs h.0,
        hex_digit-is_hex (b / 16) (omega arith),
        hex_digit-is_hex (b % 16) (omega arith),
      )
      (bytes_to_hex-all_hex bs h.1)

parse_pairs-cons :
    (c d : ℕ) (s : Text)
    → parse_pairs (c ∷ d ∷ s) ≡ (hex_value c * 16 + hex_value d) ∷ parse_pairs s
unfolding parse_pairs
parse_pairs-cons c d s = refl

parse_pairs-bytes_to_hex : (bs : Bytes) → All IsByte bs → parse_pairs (bytes_to_hex bs) ≡ bs
parse_pairs-bytes_to_hex [] h = unfold bytes_to_hex parse_pairs in refl
parse_pairs-bytes_to_hex (b ∷ bs) h =
    rw
      (
        bytes_to_hex-cons b bs h.0,
        parse_pairs-cons,
        hex_value-hex_digit (b / 16) (omega arith),
        hex_value-hex_digit (b % 16) (omega arith),
        parse_pairs-bytes_to_hex bs h.1,
      )
      (ap (λ c. c ∷ bs) (omega arith))

-- Reading back what `bytes_to_hex` wrote gives the same bytes.
pub hex_to_bytes-bytes_to_hex :
    (bs : Bytes) → All IsByte bs → hex_to_bytes (bytes_to_hex bs) ≡ ok bs
unfolding hex_to_bytes
hex_to_bytes-bytes_to_hex bs h =
    rw (even, bytes_to_hex-all_hex bs h, parse_pairs-bytes_to_hex bs h) refl
  where
    even : length (bytes_to_hex bs) % 2 ≡ 0
    even = omega (arith, length-bytes_to_hex bs h)
