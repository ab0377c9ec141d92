-- ===== src/Jws/Verify/Header.antt =====
-- What `decodeJwsHeader` of src/jws.js reads of a token, against what `verifyJws` checks.
use kxco_post_quantum.Prelude.{
  ◌≡◌, ap, List, [], ◌∷◌, some, Text, Bytes, ok, require_some, ok-injective, >>=-eq-ok,
}
use kxco_post_quantum.Value.{text}
use kxco_post_quantum.Codec.Base64.{Runtime}
use kxco_post_quantum.Codec.Utf8.Decode.{text_decode}
use kxco_post_quantum.Json.Parse.{parse}
use kxco_post_quantum.Jws.{JwsModules}
use kxco_post_quantum.Jws.Segments.{Parts, strict_b64url, split_on, three_parts, dot}
use kxco_post_quantum.Jws.Segments.Laws.{some_required}
use kxco_post_quantum.Jws.Verify.{
  VerifyJwsOptions, VerifiedJws, JwsKey, key_bytes, valid, segment, json_header, members_of,
  check_header, check_signature, check_parts, check_token, verify_jws, header_not_an_object,
  not_three_segments, first_segment, or_null, decode_header, decode_jws_header,
}
use kxco_post_quantum.Jws.Verify.Laws.{verdict-valid}

first_of_three :
    (ps : List Text) (parts : Parts)
    → three_parts ps ≡ some parts
    → first_segment ps ≡ parts.protected
first_of_three (p ∷ q ∷ s ∷ []) parts h = ap (λ (x : Parts). x.protected) (same _ parts h)
  where
    same : (a b : Parts) → some a ≡ some b → a ≡ b
    same a b e = cc
first_of_three _ parts h = cc

-- The header of a token that was checked is the header that is read without the check.
decode_header-check_parts :
    (rt : Runtime) (m : JwsModules) (token : Text) (parts : Parts) (public_key : Bytes)
    (opts : VerifyJwsOptions) (v : VerifiedJws)
    → first_segment (split_on dot token) ≡ parts.protected
    → check_parts rt m parts public_key opts ≡ ok v
    → decode_header rt token ≡ ok v.header
unfolding check_parts decode_header
decode_header-check_parts rt m token parts public_key opts v first h =
    let (hb, r1, h1) = >>=-eq-ok (segment (strict_b64url rt parts.protected)) _ h in
    let (json, r2, h2) = >>=-eq-ok (json_header (parse (text_decode hb))) _ h1 in
    let (pb, r3, h3) = >>=-eq-ok (segment (strict_b64url rt parts.payload)) _ h2 in
    let (sb, r4, h4) = >>=-eq-ok (segment (strict_b64url rt parts.signature)) _ h3 in
    let (ms, r5, h5) = >>=-eq-ok (require_some (members_of json) header_not_an_object) _ h4 in
    let (a, r6, h6) = >>=-eq-ok (check_header opts ms) _ h5 in
    let (u, r7, h7) = >>=-eq-ok (check_signature m a public_key parts sb) _ h6 in
    rw (first, r1, r2, r5) (ap (λ (x : VerifiedJws). ok x.header) (ok-injective h7))

-- Where `verifyJws` calls a token valid, with any key and options, `decodeJwsHeader` returns for this
-- token the same header.
pub decode_jws_header-verify_jws :
    (rt : Runtime) (m : JwsModules) (token : Text) (public_key : JwsKey) (opts : VerifyJwsOptions)
    (v : VerifiedJws)
    → verify_jws rt m (text token) public_key (some opts) ≡ ok (valid v)
    → decode_jws_header rt (text token) ≡ some v.header
unfolding verify_jws check_token decode_jws_header
decode_jws_header-verify_jws rt m token public_key opts v h =
    let checked = verdict-valid _ v (ok-injective h) in
    let (parts, split, h1) =
      >>=-eq-ok (require_some (three_parts (split_on dot token)) not_three_segments) _ checked in
    ap or_null (
      decode_header-check_parts rt m token parts (key_bytes public_key) opts v
        (first_of_three (split_on dot token) parts (some_required _ _ parts split)) h1)
