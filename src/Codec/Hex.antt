-- ===== src/Codec/Hex.antt =====
-- `bytesToHex` and `hexToBytes`, as src/jws.js has them. The other files repeat them.
pub mod Laws
use kxco_post_quantum.Prelude.{
  ℕ, zero, suc, ◌+◌, ◌-◌, ◌*◌, ◌/◌, ◌%◌, Bool, not, ◌&&◌, ◌||◌, List, [], ◌∷◌, ◌++◌, ltb, leb, ◌==◌,
  if◌then◌else◌, length, all, Text, Bytes, Result, ok, err, require, ◌>>=◌, ◌>>◌,
}

-- The digit that `toString(16)` writes for a number below 16.
unfoldable pub hex_digit : ℕ → ℕ
hex_digit d = if ltb d 10 then b'0' + d else b'a' + d - 10

-- `b.toString(16)` for a byte.
unfoldable pub to_string16 : ℕ → Text
unfolding hex_digit
to_string16 b = if ltb b 16 then hex_digit b ∷ [] else hex_digit (b / 16) ∷ hex_digit (b % 16) ∷ []

-- `s.padStart(2, '0')` for a text of one or two digits.
unfoldable pub pad_start2 : Text → Text
pad_start2 (d ∷ []) = b'0' ∷ d ∷ []
pad_start2 s = s

unfoldable pub bytes_to_hex : Bytes → Text
unfolding to_string16 pad_start2
bytes_to_hex [] = []
bytes_to_hex (b ∷ bs) = pad_start2 (to_string16 b) ++ bytes_to_hex bs

-- The class `[0-9a-fA-F]`.
unfoldable pub is_hex : ℕ → Bool
is_hex c = (leb b'0' c && leb c b'9') || (leb b'a' c && leb c b'f') || (leb b'A' c && leb c b'F')

-- What `parseInt` reads from one digit of base 16.
unfoldable pub hex_value : ℕ → ℕ
hex_value c = if leb c b'9' then c - b'0' else if leb c b'F' then c - b'A' + 10 else c - b'a' + 10

-- The loop `b[i] = parseInt(hex.slice(i * 2, i * 2 + 2), 16)` for `i < hex.length / 2`.
unfoldable pub parse_pairs : Text → Bytes
unfolding hex_value
parse_pairs [] = []
parse_pairs (c ∷ []) = []
parse_pairs (c ∷ d ∷ s) = (hex_value c * 16 + hex_value d) ∷ parse_pairs s

pub data HexError : Type 0 where
  odd_length invalid_hex : HexError

unfoldable pub hex_to_bytes : Text → Result HexError Bytes
unfolding is_hex parse_pairs
hex_to_bytes hex = do
  require (length hex % 2 == 0) invalid_hex
  require (all is_hex hex) invalid_hex
  ok (parse_pairs hex)
