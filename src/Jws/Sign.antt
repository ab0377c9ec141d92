-- ===== src/Jws/Sign.antt =====
-- `signJws` of src/jws.js.
use kxco_post_quantum.Prelude.{
  ℕ, ◌+◌, ◌-◌, ◌*◌, ◌^◌, Bool, true, false, not, ◌&&◌, ◌||◌, [], ◌∷◌, ◌++◌, Option, none, some, ltb,
  leb, if◌then◌else◌, length, all, Text, Bytes, codes, Result, ok, err, require, require_some,
  ◌>>=◌, ◌>>◌,
}
use mathlib.Core.List.{foldl}
use kxco_post_quantum.Value.{u8}
use kxco_post_quantum.Context.{absent}
use kxco_post_quantum.Codec.Utf8.{utf8}
use kxco_post_quantum.Codec.Hex.{hex_to_bytes}
use kxco_post_quantum.Codec.Base64.{Runtime, b64url}
use kxco_post_quantum.Json.{
  Json, Members, string, object, end_members, member, has_own, append_members,
}
use kxco_post_quantum.Json.Print.{stringify}
use kxco_post_quantum.Signature.{sign, SignError}
use kxco_post_quantum.Jws.{
  JwsAlgorithm, JwsModules, ml_dsa_87, jws_spec, setup_of, algorithm_for, algorithm_for_secret_key,
}
use kxco_post_quantum.Jws.Segments.{dot, signing_text}

-- A payload, as the code tells them apart. `json_payload` is any other object, an array included.
pub data Payload : Type 0 where
  bytes_payload : Bytes → Payload
  text_payload : Text → Payload
  json_payload : Json → Payload
  missing_payload other_payload : Payload

pub data SignJwsError : Type 0 where
  not_an_options_object unsupported_alg reserved_member payload_required bad_payload : SignJwsError
  signing_failed invalid_hex : SignJwsError

-- `opts`; a member that is missing is `none`.
pub record SignJwsOptions : Type 0 where
  pub alg : Option Text
  pub kid : Option Text
  pub typ : Option Text
  pub header : Members

-- `payloadBytes`
unfoldable pub payload_bytes : Payload → Result SignJwsError Bytes
payload_bytes (bytes_payload bs) = ok bs
payload_bytes (text_payload s) = ok (utf8 s)
payload_bytes (json_payload v) = ok (utf8 (stringify v))
payload_bytes missing_payload = err payload_required
payload_bytes other_payload = err bad_payload

abbrev pub name_of : Option JwsAlgorithm → Text
name_of none = (jws_spec ml_dsa_87).name
name_of (some a) = (jws_spec a).name

-- `opts.alg ?? algorithmForSecretKey(secretKey) ?? DEFAULT_ALG`
unfoldable pub chosen_alg : Option Text → Bytes → Text
unfolding algorithm_for_secret_key
chosen_alg none secret_key = name_of (algorithm_for_secret_key (length secret_key))
chosen_alg (some alg) secret_key = alg

unfoldable pub has_reserved : Members → Bool
unfolding has_own
has_reserved extra =
    has_own (codes "alg") extra || has_own (codes "kid") extra || has_own (codes "typ") extra

-- `v !== undefined ? { k: v } : {}`
abbrev pub optional_member : Text → Option Text → Members → Members
optional_member k none ms = ms
optional_member k (some v) ms = member k (string v) ms

-- A name that JavaScript lists before all others: the decimal form of an array index.
abbrev pub decimal_value : Text → ℕ
decimal_value s = foldl (λ n c. n * 10 + (c - b'0')) 0 s

unfoldable pub is_index : Text → Bool
is_index [] = false
is_index (c ∷ []) = leb b'0' c && leb c b'9'
is_index (c ∷ d ∷ s) =
    leb b'1' c
    && leb c b'9'
    && all (λ x. leb b'0' x && leb x b'9') (d ∷ s)
    && ltb (decimal_value (c ∷ d ∷ s)) (2 ^ 32 - 1)

-- The index names come first in an object, so those of `extra` do in the header too.
unfoldable pub index_members : Bool → Members → Members
unfolding is_index
index_members b end_members = end_members
index_members true (member k v ms) =
    if is_index k then member k v (index_members true ms) else index_members true ms
index_members false (member k v ms) =
    if is_index k then index_members false ms else member k v (index_members false ms)

-- The protected header.
unfoldable pub protected_header : Text → SignJwsOptions → Members
unfolding index_members append_members
protected_header alg opts = append_members (index_members true opts.header) (
    member (codes "alg") (string alg) (
      optional_member (codes "typ") opts.typ
        (optional_member (codes "kid") opts.kid (index_members false opts.header))))

abbrev pub or_failed : Result SignError Text → Result SignJwsError Text
or_failed (ok hex) = ok hex
or_failed (err e) = err signing_failed

abbrev pub or_invalid {ε} : {E : Type ε} → Result E Bytes → Result SignJwsError Bytes
or_invalid (ok bs) = ok bs
or_invalid (err e) = err invalid_hex

-- From the two segments on.
unfoldable pub sign_segments :
    Runtime
    → JwsModules
    → JwsAlgorithm
    → Bytes
    → (protected payload : Text) → Result SignJwsError Text
sign_segments rt m a secret_key protected payload = do
  hex ←
      or_failed (sign (setup_of m a) secret_key (u8 (utf8 (signing_text protected payload))) absent)
  signature ← or_invalid (hex_to_bytes hex)
  ok (signing_text protected payload ++ dot ∷ b64url rt signature)

unfoldable pub sign_jws :
    Runtime → JwsModules → Payload → Bytes → Option SignJwsOptions → Result SignJwsError Text
unfolding has_reserved
sign_jws rt m payload secret_key opts = do
  opts ← require_some opts not_an_options_object
  let alg = chosen_alg opts.alg secret_key
  a ← require_some (algorithm_for alg) unsupported_alg
  require (not (has_reserved opts.header)) reserved_member
  let protected = b64url rt (utf8 (stringify (object (protected_header alg opts))))
  bytes ← payload_bytes payload
  sign_segments rt m a secret_key protected (b64url rt bytes)
