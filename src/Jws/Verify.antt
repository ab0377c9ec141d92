-- ===== src/Jws/Verify.antt =====
-- `verifyJws` and `decodeJwsHeader` of src/jws.js.
pub mod Laws
pub mod Header
use kxco_post_quantum.Prelude.{
  ℕ, Bool, true, false, List, [], ◌∷◌, ◌++◌, Option, none, some, ◌==◌, if◌then◌else◌, length, Text,
  Bytes, codes, text_eq, Result, ok, err, require, require_some, ◌>>=◌, ◌>>◌,
}
use kxco_post_quantum.Value.{Value, u8, text, uint8_from}
use kxco_post_quantum.Context.{absent}
use kxco_post_quantum.Codec.Utf8.{utf8}
use kxco_post_quantum.Codec.Utf8.Decode.{text_decode}
use kxco_post_quantum.Codec.Hex.{bytes_to_hex}
use kxco_post_quantum.Codec.Base64.{Runtime}
use kxco_post_quantum.Json.{Json, Members, string, object, get_member}
use kxco_post_quantum.Json.Scan.{ParseError}
use kxco_post_quantum.Json.Parse.{parse}
use kxco_post_quantum.Signature.{Setup, verify}
use kxco_post_quantum.Jws.{JwsAlgorithm, JwsModules, jws_spec, setup_of, algorithm_for_member}
use kxco_post_quantum.Jws.Segments.{
  SegmentError, Parts, strict_b64url, split_on, three_parts, dot, signing_text,
}

-- A public key as bytes, or as the array of numbers (or the ArrayBuffer, by its bytes) that
-- `new Uint8Array` takes.
pub data JwsKey : Type 0 where
  raw_key : Bytes → JwsKey
  array_key : List ℕ → JwsKey

abbrev pub key_bytes : JwsKey → Bytes
key_bytes (raw_key bs) = bs
key_bytes (array_key xs) = uint8_from xs

pub record VerifyJwsOptions : Type 0 where
  pub alg : Option Text
  pub kid : Option Text

-- Why a token is not valid.
pub data Invalid : Type 0 where
  token_not_a_string not_three_segments header_not_json header_not_an_object : Invalid
  unsupported_alg alg_mismatch kid_mismatch declares_crit declares_b64 : Invalid
  wrong_key_length wrong_signature_length signature_invalid : Invalid
  malformed : SegmentError → Invalid

pub record VerifiedJws : Type 0 where
  pub header : Members
  pub payload : Bytes
  pub text : Text

pub data Verdict : Type 0 where
  valid : VerifiedJws → Verdict
  invalid : Invalid → Verdict

pub data VerifyJwsError : Type 0 where
  not_an_options_object : VerifyJwsError

abbrev pub segment : Result SegmentError Bytes → Result Invalid Bytes
segment (ok bs) = ok bs
segment (err e) = err (malformed e)

abbrev pub json_header : Result ParseError Json → Result Invalid Json
json_header (ok v) = ok v
json_header (err e) = err header_not_json

-- `!header || typeof header !== 'object' || Array.isArray(header)`
abbrev pub members_of : Json → Option Members
members_of (object ms) = some ms
members_of _ = none

abbrev pub is_string : Text → Option Json → Bool
is_string s (some (string t)) = text_eq t s
is_string s _ = false

-- `wanted === undefined || member === wanted`
abbrev pub matches_option : Option Text → Option Json → Bool
matches_option none v = true
matches_option (some s) v = is_string s v

abbrev pub is_absent : Option Json → Bool
is_absent none = true
is_absent (some v) = false

abbrev pub or_false {ε} : {E : Type ε} → Result E Bool → Bool
or_false (ok b) = b
or_false (err e) = false

-- `mod.verify(...)`; with no options it does not throw.
abbrev pub verifies : Setup → Bytes → Bytes → Text → Bool
verifies setup public_key input hex =
    or_false (verify setup public_key (u8 input) (text hex) absent)

-- From the parsed header on: what it declares, and what is asked of it.
unfoldable pub check_header : VerifyJwsOptions → Members → Result Invalid JwsAlgorithm
check_header opts ms = do
  a ← require_some (algorithm_for_member (get_member (codes "alg") ms)) unsupported_alg
  require (matches_option opts.alg (get_member (codes "alg") ms)) alg_mismatch
  require (matches_option opts.kid (get_member (codes "kid") ms)) kid_mismatch
  require (is_absent (get_member (codes "crit") ms)) declares_crit
  require (is_absent (get_member (codes "b64") ms)) declares_b64
  ok a

-- The key, the signature's length and the signature.
unfoldable pub check_signature :
    JwsModules → JwsAlgorithm → Bytes → Parts → Bytes → Result Invalid (Unit {0})
check_signature m a public_key parts signature = do
  require (length public_key == (jws_spec a).public_key_bytes) wrong_key_length
  require (length signature == (jws_spec a).signature_bytes) wrong_signature_length
  require
      (verifies (setup_of m a) public_key (utf8 (signing_text parts.protected parts.payload))
        (bytes_to_hex signature))
      signature_invalid

unfoldable pub check_parts :
    Runtime → JwsModules → Parts → Bytes → VerifyJwsOptions → Result Invalid VerifiedJws
check_parts rt m parts public_key opts = do
  header_bytes ← segment (strict_b64url rt parts.protected)
  header ← json_header (parse (text_decode header_bytes))
  payload ← segment (strict_b64url rt parts.payload)
  signature ← segment (strict_b64url rt parts.signature)
  ms ← require_some (members_of header) header_not_an_object
  a ← check_header opts ms
  check_signature m a public_key parts signature
  ok (record { header = ms; payload = payload; text = text_decode payload })

unfoldable pub check_token :
    Runtime → JwsModules → Value → Bytes → VerifyJwsOptions → Result Invalid VerifiedJws
check_token rt m (text token) public_key opts = do
  parts ← require_some (three_parts (split_on dot token)) not_three_segments
  check_parts rt m parts public_key opts
check_token rt m token public_key opts = err token_not_a_string

abbrev pub verdict : Result Invalid VerifiedJws → Verdict
verdict (ok v) = valid v
verdict (err e) = invalid e

unfoldable pub verify_jws :
    Runtime → JwsModules → Value → JwsKey → Option VerifyJwsOptions → Result VerifyJwsError Verdict
verify_jws rt m token public_key none = err not_an_options_object
verify_jws rt m token public_key (some opts) =
    ok (verdict (check_token rt m token (key_bytes public_key) opts))

-- `token.split('.')[0]`
abbrev pub first_segment : List Text → Text
first_segment [] = []
first_segment (p ∷ ps) = p

unfoldable pub decode_header : Runtime → Text → Result Invalid Members
decode_header rt token = do
  header_bytes ← segment (strict_b64url rt (first_segment (split_on dot token)))
  header ← json_header (parse (text_decode header_bytes))
  require_some (members_of header) header_not_an_object

abbrev pub or_null : Result Invalid Members → Option Members
or_null (ok ms) = some ms
or_null (err e) = none

-- `decodeJwsHeader`
unfoldable pub decode_jws_header : Runtime → Value → Option Members
unfolding decode_header
decode_jws_header rt (text token) = or_null (decode_header rt token)
decode_jws_header rt token = none
