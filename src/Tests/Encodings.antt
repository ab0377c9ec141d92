-- ===== src/Tests/Encodings.antt =====
-- The theorems on src/_context.js, src/kid.js, src/jws.js, src/seed.js and the shared codecs at
-- concrete inputs, and runs of the codecs.
use kxco_post_quantum.Prelude.{
  Text, ◌%◌, length, take, ◌↔◌, true, ◌≡◌, refl, [], ◌∷◌, some, All, Bytes, IsByte, codes, arith,
  ok,
}
use kxco_post_quantum.Value.{u8, text}
use kxco_post_quantum.Context.{options, normalize_context, limit_context}
use kxco_post_quantum.Codec.Hex.{bytes_to_hex, is_hex, hex_value, parse_pairs}
use kxco_post_quantum.Kid.{hex_key, array_key, key_from_hex, key_bytes, fingerprint, kid_equals}
use kxco_post_quantum.Kid.Fingerprints.{kid_equals-fingerprint}
use kxco_post_quantum.Codec.Utf8.{utf8}
use kxco_post_quantum.Codec.Base64.{b64url, from_b64url, base64url, atob}
use kxco_post_quantum.Codec.Base64.RoundTrip.{from_b64url-b64url}
use kxco_post_quantum.Seed.Der.{read_length}
use kxco_post_quantum.Tests.Samples.{node, node-BufferLaws}

abbrev three : Bytes
three = 1 ∷ 0xfe ∷ 0xff ∷ []

three-IsByte : All IsByte three
three-IsByte = omega arith

base64_three : base64url three ≡ codes "Af7_"
unfolding base64url
base64_three = refl

atob_padded : atob (codes "Af 4=") ≡ some (1 ∷ 0xfe ∷ [])
unfolding atob
atob_padded = refl

hex_three : bytes_to_hex three ≡ codes "01feff"
unfolding bytes_to_hex
hex_three = refl

utf8_euro : utf8 (0x20ac ∷ []) ≡ 0xe2 ∷ 0x82 ∷ 0xac ∷ []
unfolding utf8
utf8_euro = refl

accepts_one_byte : normalize_context (options (u8 (codes "a"))) ≡ ok (some (codes "a"))
unfolding normalize_context limit_context
accepts_one_byte = refl

from_b64url-b64url_example : from_b64url node (b64url node three) ≡ some three
from_b64url-b64url_example = from_b64url-b64url node three node-BufferLaws three-IsByte

abbrev long_form : Bytes
long_form = 0x82 ∷ 1 ∷ 44 ∷ []

reads_long_form : read_length long_form 0 ≡ ok (300, 3)
unfolding read_length
reads_long_form = refl

-- A digest of eight bytes, the first of which is the number of bytes of what is digested.
abbrev eight : Bytes → Bytes
eight m = (length m % 256) ∷ 1 ∷ 2 ∷ 3 ∷ 4 ∷ 5 ∷ 6 ∷ 7 ∷ []

reads_hex_key : key_bytes (hex_key (codes "01FEff")) ≡ ok three
unfolding key_bytes key_from_hex is_hex parse_pairs hex_value
reads_hex_key = refl

reads_array_key : key_bytes (array_key (257 ∷ [])) ≡ ok (1 ∷ [])
unfolding key_bytes
reads_array_key = refl

kid_equals-fingerprint_example :
    (k : Text) × (l : Text) × (fingerprint eight (hex_key (codes "01FEff")) ≡ ok k)
    × (fingerprint eight (array_key (257 ∷ [])) ≡ ok l)
    × ((kid_equals (text k) (text l) ≡ true) ↔ (take 8 (eight three) ≡ take 8 (eight (1 ∷ []))))
kid_equals-fingerprint_example =
    kid_equals-fingerprint eight (λ m. omega arith) (hex_key (codes "01FEff"))
      (array_key (257 ∷ [])) three (1 ∷ []) reads_hex_key reads_array_key
