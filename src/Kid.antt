-- ===== src/Kid.antt =====
-- src/kid.js: public-key fingerprints. SHA-256 of `@noble/hashes` is a parameter.
pub mod Fingerprints
use kxco_post_quantum.Prelude.{
  ℕ, ◌%◌, ◌≡◌, refl, sym, ◌↔◌, ap, ◌∙◌, Bool, true, false, List, arith, ◌==◌, length, take,
  length-take, all, All, Text, Bytes, IsByte, Result, ok, require, ◌>>=◌, ◌>>◌, Bool-cases, inl,
  inr,
}
use mathlib.Core.Path.{ap₂}
use kxco_post_quantum.Value.{Value, text, uint8_from}
use kxco_post_quantum.Codec.Hex.{
  HexError, odd_length, invalid_hex, is_hex, parse_pairs, bytes_to_hex, hex_to_bytes,
}
use kxco_post_quantum.Codec.Hex.Laws.{length-bytes_to_hex, hex_to_bytes-bytes_to_hex}
use kxco_post_quantum.Codec.Equal.{bytes_equal, bytes_equal_iff}

-- A public key as hex, as a Uint8Array, or as what `new Uint8Array` takes (an ArrayBuffer, an
-- array of numbers).
pub data KeyInput : Type 0 where
  hex_key : Text → KeyInput
  raw_key : Bytes → KeyInput
  array_key : List ℕ → KeyInput

-- `hexToBytes`, which tells an odd length from a bad digit here.
unfoldable pub key_from_hex : Text → Result HexError Bytes
unfolding is_hex parse_pairs
key_from_hex hex = do
  require (length hex % 2 == 0) odd_length
  require (all is_hex hex) invalid_hex
  ok (parse_pairs hex)

unfoldable pub key_bytes : KeyInput → Result HexError Bytes
key_bytes (hex_key s) = key_from_hex s
key_bytes (raw_key bs) = ok bs
key_bytes (array_key xs) = ok (uint8_from xs)

unfoldable pub fingerprint : (Bytes → Bytes) → KeyInput → Result HexError Text
fingerprint sha256 public_key = do
  bytes ← key_bytes public_key
  ok (take 16 (bytes_to_hex (sha256 bytes)))

-- `kidEquals`: a value that is no string equals nothing; the lengths are compared first.
unfoldable pub kid_equals : Value → Value → Bool
kid_equals (text a) (text b) = bytes_equal a b
kid_equals _ _ = false

key_from_hex-eq-ok : (s : Text) (bs : Bytes) → hex_to_bytes s ≡ ok bs → key_from_hex s ≡ ok bs
unfolding hex_to_bytes key_from_hex
key_from_hex-eq-ok s bs h = elim (Bool-cases (length s % 2 == 0)) [
  | inl even ↦ elim (Bool-cases (all is_hex s)) [
    | inl digits ↦ rw (even, digits) (rw (even, digits) at h)
    | inr bad ↦ cc (rw (even, bad) at h)
  ]
  | inr odd ↦ cc (rw odd at h)
]

-- The hex of a key and its bytes have one fingerprint.
pub fingerprint-hex :
    (sha256 : Bytes → Bytes) (key : Bytes)
    → All IsByte key
    → fingerprint sha256 (hex_key (bytes_to_hex key)) ≡ fingerprint sha256 (raw_key key)
unfolding fingerprint key_bytes
fingerprint-hex sha256 key h =
    rw (key_from_hex-eq-ok (bytes_to_hex key) key (hex_to_bytes-bytes_to_hex key h))

-- If the digest has 32 bytes, as that of SHA-256 has, the fingerprint of a key given as bytes is
-- made, and has 16 characters.
pub length-fingerprint :
    (sha256 : Bytes → Bytes) (key : Bytes)
    → All IsByte (sha256 key)
    → length (sha256 key) ≡ 32
    → (kid : Text) × (fingerprint sha256 (raw_key key) ≡ ok kid) × (length kid ≡ 16)
unfolding fingerprint key_bytes
length-fingerprint sha256 key bytes n = (
  take 16 (bytes_to_hex (sha256 key)),
  refl,
  omega (arith, length-take 16 (bytes_to_hex (sha256 key)), length-bytes_to_hex (sha256 key) bytes),
)

kid_equals-forth : (a b : Value) → kid_equals a b ≡ true → (s : Text) × (a ≡ text s) × (b ≡ text s)
unfolding kid_equals
kid_equals-forth (text s) (text t) h = (s, refl, ap text (sym ((bytes_equal_iff s t).0 h)))
kid_equals-forth (text s) _ h = cc
kid_equals-forth _ b h = cc

-- `kidEquals` is true exactly of two strings that are equal.
pub kid_equals_iff :
    (a b : Value) → (kid_equals a b ≡ true) ↔ ((s : Text) × (a ≡ text s) × (b ≡ text s))
kid_equals_iff a b = (
  kid_equals-forth a b,
  λ e. ap₂ kid_equals e.1 e.2 ∙ (unfold kid_equals in (bytes_equal_iff e.0 e.0).1 refl),
)
