-- ===== src/Derive.antt =====
-- src/derive.js: `deriveSeed`. HKDF-SHA-512 of `@noble/hashes` is the parameter `hkdf`, of the
-- input keying material, the salt, the info and the length; the lengths that the package asks
-- for are within its limit.
use kxco_post_quantum.Prelude.{
  ℕ, not, ◌∷◌, ltb, length, replicate, Text, Bytes, Result, ok, err, require, ◌>>=◌, ◌>>◌,
}
use kxco_post_quantum.Value.{Value, u8, text}
use kxco_post_quantum.Codec.Utf8.{utf8}

pub data DeriveError : Type 0 where
  expected_bytes_or_string short_master missing_info : DeriveError

abbrev pub Hkdf : Type 0
Hkdf = Bytes → Bytes → Bytes → ℕ → Bytes

-- `toBytes`
unfoldable pub to_bytes : Value → Result DeriveError Bytes
unfolding utf8
to_bytes (u8 bs) = ok bs
to_bytes (text s) = ok (utf8 s)
to_bytes _ = err expected_bytes_or_string

-- `!info || typeof info !== 'string'`: only a string that is not empty passes.
unfoldable pub info_text : Value → Result DeriveError Text
info_text (text (c ∷ s)) = ok (c ∷ s)
info_text _ = err missing_info

unfoldable pub derive_seed : Hkdf → Value → Value → ℕ → Result DeriveError Bytes
unfolding to_bytes info_text
derive_seed hkdf master info n = do
  ikm ← to_bytes master
  require (not (ltb (length ikm) 16)) short_master
  tag ← info_text info
  let salt = replicate 32 0
  ok (hkdf ikm salt (utf8 tag) n)
