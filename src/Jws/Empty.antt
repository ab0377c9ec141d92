-- ===== src/Jws/Empty.antt =====
-- The empty payload, which `signJws` of src/jws.js signs.
use kxco_post_quantum.Prelude.{◌≡◌, refl, ap, ◌∙◌, [], ◌∷◌, some, Text, Bytes, ok, err}
use mathlib.Core.List.{append_assoc}
use kxco_post_quantum.Value.{text}
use kxco_post_quantum.Codec.Utf8.{utf8}
use kxco_post_quantum.Codec.Base64.{Runtime, BufferLaws, b64url, base64url, sextets}
use kxco_post_quantum.Codec.Base64.RoundTrip.{b64url-base64url}
use kxco_post_quantum.Json.{object}
use kxco_post_quantum.Json.Print.{stringify}
use kxco_post_quantum.Signature.Laws.{Interoperable}
use kxco_post_quantum.Jws.{JwsAlgorithm, JwsModules, jws_spec, setup_of, algorithm_for}
use kxco_post_quantum.Jws.Header.{IsPlain, protected_header-canonical}
use kxco_post_quantum.Jws.Segments.{strict_b64url, dot, not_base64url}
use kxco_post_quantum.Jws.Segments.RoundTrip.{b64url-IsNotDot, split_on_token}
use kxco_post_quantum.Jws.Sign.{
  Payload, SignJwsOptions, payload_bytes, chosen_alg, protected_header, sign_jws,
}
use kxco_post_quantum.Jws.Verify.{
  VerifyJwsOptions, JwsKey, invalid, malformed, segment, check_parts, check_token, verify_jws,
}
use kxco_post_quantum.Jws.Signed.{SignsWith, sign_segments-IsSigned}
use kxco_post_quantum.Jws.RoundTrip.{algorithm-units, made_of, header_decodes, segment_read}

empty_segment : (rt : Runtime) → segment (strict_b64url rt []) ≡ err (malformed not_base64url)
unfolding strict_b64url
empty_segment rt = refl

b64url_empty : (rt : Runtime) → BufferLaws rt → b64url rt [] ≡ []
b64url_empty rt laws = b64url-base64url rt [] laws tt ∙ unfold base64url sextets in refl

-- A token that `signJws` returns for a payload of no bytes is refused by `verifyJws`, whatever the key
-- and the options, as one with a segment that is not base64url. This is so where the module of the
-- algorithm chosen accepts, for some public key, the signatures that it makes, which are bytes, as many
-- as the algorithm's signatures have, and the options are plain.
pub verify_jws-sign_jws_empty :
    (rt : Runtime) (m : JwsModules) (a : JwsAlgorithm) (payload : Payload)
    (secret_key public_key : Bytes) (sign_opts : SignJwsOptions) (token : Text) (key : JwsKey)
    (opts : VerifyJwsOptions)
    → BufferLaws rt
    → algorithm_for (chosen_alg sign_opts.alg secret_key) ≡ some a
    → Interoperable (setup_of m a) (setup_of m a) secret_key public_key
    → SignsWith (setup_of m a) secret_key (jws_spec a).signature_bytes
    → IsPlain sign_opts
    → payload_bytes payload ≡ ok []
    → sign_jws rt m payload secret_key (some sign_opts) ≡ ok token
    → verify_jws rt m (text token) key (some opts) ≡ ok (invalid (malformed not_base64url))
unfolding verify_jws check_token check_parts
verify_jws-sign_jws_empty rt m a payload sk pk sign_opts token key opts laws found inter sized plain
      read h =
    let alg = chosen_alg sign_opts.alg sk in
    let ms = protected_header alg sign_opts in
    let p = b64url rt (utf8 (stringify (object ms))) in
    let (free, made) = made_of rt m a payload [] sk sign_opts token found read h in
    let (signature, hs, size, signed, written) =
      sign_segments-IsSigned rt m a sk pk _ p (b64url rt []) token inter sized made in
    let canonical =
      protected_header-canonical alg sign_opts (algorithm-units alg a found) plain free in
    let (nh, hh, decoded) = header_decodes rt laws ms canonical in
    let dotless = b64url-IsNotDot rt laws in
    let nothing = b64url_empty rt laws in
    rw
      (
        written ∙ append_assoc p (dot ∷ b64url rt []) (dot ∷ b64url rt signature),
        split_on_token p (b64url rt []) (b64url rt signature) (dotless _ hh) (dotless [] tt)
            (dotless signature hs),
        segment_read rt laws _ hh nh,
        decoded,
        ap (λ x. segment (strict_b64url rt x)) nothing ∙ empty_segment rt,
      )
      refl
