-- ===== src/Jws/RoundTrip.antt =====
-- What `signJws` of src/jws.js signs, `verifyJws` accepts.
use kxco_post_quantum.Prelude.{
  ◌≡◌, ◌<◌, refl, sym, ap, ◌∙◌, Bool, true, false, not, [], ◌∷◌, ◌++◌, some, length, All, arith,
  Text, Bytes, IsByte, ok, require, require_some, required, ok-injective, >>=-eq-ok,
}
use mathlib.Core.Path.{subst}
use mathlib.Core.List.{append_assoc}
use kxco_post_quantum.Value.{text}
use kxco_post_quantum.Codec.Utf8.{utf8, utf8-append_ascii}
use kxco_post_quantum.Codec.Utf8.Decode.{text_decode}
use kxco_post_quantum.Codec.Utf8.Decode.RoundTrip.{WellFormed, text_decode-utf8, utf8-IsByte}
use kxco_post_quantum.Codec.Base64.{Runtime, BufferLaws, b64url}
use kxco_post_quantum.Json.{Members, object}
use kxco_post_quantum.Json.Print.{compact, write, write_members, stringify}
use kxco_post_quantum.Json.Parse.{parse}
use kxco_post_quantum.Json.RoundTrip.{parse-stringify}
use kxco_post_quantum.Json.Canonical.{IsCanonical, MembersAreCanonical}
use kxco_post_quantum.Json.Written.{stringify-WellFormed}
use kxco_post_quantum.Json.Quote.Laws.{IsUnit}
use kxco_post_quantum.Signature.Laws.{Interoperable}
use kxco_post_quantum.Jws.{
  JwsAlgorithm, ml_dsa_65, ml_dsa_87, JwsModules, jws_spec, setup_of, algorithm_for,
}
use kxco_post_quantum.Jws.Header.{IsPlain, protected_header-canonical, protected_header_members}
use kxco_post_quantum.Jws.Segments.{strict_b64url, dot}
use kxco_post_quantum.Jws.Segments.Laws.{some_required}
use kxco_post_quantum.Jws.Segments.RoundTrip.{
  IsNotDot, b64url-IsNotDot, strict_b64url_of, split_on_token,
}
use kxco_post_quantum.Jws.Sign.{
  Payload, SignJwsOptions, payload_bytes, chosen_alg, has_reserved, protected_header, sign_segments,
  sign_jws, unsupported_alg, reserved_member,
}
use kxco_post_quantum.Jws.Verify.{
  VerifyJwsOptions, raw_key, valid, segment, json_header, check_header, check_signature,
  check_parts, check_token, verdict, verify_jws,
}
use kxco_post_quantum.Jws.Verify.Laws.{algorithm_for-name}
use kxco_post_quantum.Jws.Signed.{
  Asks, header_passes, SignsWith, sign_segments-IsSigned, signature_passes,
}

module _ (rt : Runtime) (laws : BufferLaws rt) where
  pub segment_read :
      (bs : Bytes)
      → All IsByte bs
      → 0 < length bs
      → segment (strict_b64url rt (b64url rt bs)) ≡ ok bs
  segment_read [] h some_bytes = absurd (omega arith)
  segment_read (b ∷ bs) h some_bytes = rw (strict_b64url_of rt laws b bs h) refl

  -- The header, from its members to its bytes and back.
  pub header_decodes :
      (ms : Members)
      → MembersAreCanonical ms
      → (0 < length (utf8 (stringify (object ms))))
        × All IsByte (utf8 (stringify (object ms)))
        × (json_header (parse (text_decode (utf8 (stringify (object ms))))) ≡ ok (object ms))
  header_decodes ms h = (
    some_bytes,
    utf8-IsByte (stringify-WellFormed (object ms) canonical),
    rw (decoded, parse-stringify (object ms) canonical) refl,
  )
    where
      canonical : IsCanonical (object ms)
      canonical = unfold IsCanonical in h

      starts_so : stringify (object ms) ≡ b'{' ∷ write_members compact 0 true ms
      starts_so = unfold stringify write in refl

      some_bytes : 0 < length (utf8 (stringify (object ms)))
      some_bytes =
          rw
            (
              starts_so,
              utf8-append_ascii (b'{' ∷ []) (write_members compact 0 true ms) (omega arith),
            )
            (omega arith)

      decoded : text_decode (utf8 (stringify (object ms))) ≡ stringify (object ms)
      decoded =
          subst (λ x. text_decode (utf8 x) ≡ x) (sym starts_so)
            (text_decode-utf8 b'{' (write_members compact 0 true ms) (omega arith)
              (subst WellFormed starts_so (stringify-WellFormed (object ms) canonical)))

  token_passes :
      (m : JwsModules) (a : JwsAlgorithm) (ms : Members) (payload signature public_key : Bytes)
      (opts : VerifyJwsOptions) (p : Text)
      → p ≡ b64url rt (utf8 (stringify (object ms)))
      → MembersAreCanonical ms
      → All IsByte payload
      → 0 < length payload
      → All IsByte signature
      → 0 < length signature
      → check_header opts ms ≡ ok a
      → check_signature m a public_key
          (record { protected = p; payload = b64url rt payload; signature = b64url rt signature })
          signature
        ≡ ok tt
      → check_token rt m
          (text (p ++ dot ∷ (b64url rt payload ++ dot ∷ b64url rt signature)))
          public_key
          opts
        ≡ ok (record { header = ms; payload = payload; text = text_decode payload })
  unfolding check_token check_parts
  token_passes m a ms payload signature public_key opts p e canonical hp np hs ns header accepted =
      let (nh, hh, decoded) = header_decodes ms canonical in
      let dotless = b64url-IsNotDot rt laws in
      rw
        (
          split_on_token p (b64url rt payload) (b64url rt signature)
              (subst (All IsNotDot) (sym e) (dotless _ hh)) (dotless payload hp)
              (dotless signature hs),
          ap (λ x. segment (strict_b64url rt x)) e ∙ segment_read _ hh nh,
          decoded,
          segment_read payload hp np,
          segment_read signature hs ns,
          header,
          accepted,
        )
        refl

pub algorithm-units : (alg : Text) (a : JwsAlgorithm) → algorithm_for alg ≡ some a → All IsUnit alg
algorithm-units alg a h = subst (All IsUnit) (sym (algorithm_for-name alg a h)) (name_units a)
  where
    name_units : (b : JwsAlgorithm) → All IsUnit (jws_spec b).name
    name_units ml_dsa_65 = omega arith
    name_units ml_dsa_87 = omega arith

some_signature : (a : JwsAlgorithm) → 0 < (jws_spec a).signature_bytes
some_signature ml_dsa_65 = omega arith
some_signature ml_dsa_87 = omega arith

-- What a token was made of.
pub made_of :
    (rt : Runtime) (m : JwsModules) (a : JwsAlgorithm) (payload : Payload)
    (bytes secret_key : Bytes) (opts : SignJwsOptions) (token : Text)
    → algorithm_for (chosen_alg opts.alg secret_key) ≡ some a
    → payload_bytes payload ≡ ok bytes
    → sign_jws rt m payload secret_key (some opts) ≡ ok token
    → (has_reserved opts.header ≡ false)
      × (sign_segments rt m a secret_key
            (b64url rt
              (utf8 (stringify (object (protected_header (chosen_alg opts.alg secret_key) opts)))))
            (b64url rt bytes)
          ≡ ok token)
unfolding sign_jws
made_of rt m a payload bytes secret_key opts token found read h =
    let alg = chosen_alg opts.alg secret_key in
    let (b, r1, h1) = >>=-eq-ok (require_some (algorithm_for alg) unsupported_alg) _ h in
    let (u, r2, h2) = >>=-eq-ok (require (not (has_reserved opts.header)) reserved_member) _ h1 in
    let (bs, r3, h3) = >>=-eq-ok (payload_bytes payload) _ h2 in
    let same_a : b ≡ a = cc (some_required _ _ b r1, found) in
    let same_b : bs ≡ bytes = ok-injective (sym r3 ∙ read) in
    (
      not_true (has_reserved opts.header) (required _ _ r2),
      subst
          (λ x.
            sign_segments rt m x secret_key
              (b64url rt (utf8 (stringify (object (protected_header alg opts))))) (b64url rt bytes)
            ≡ ok token)
          same_a
          (subst
            (λ y.
              sign_segments rt m b secret_key
                (b64url rt (utf8 (stringify (object (protected_header alg opts))))) (b64url rt y)
              ≡ ok token)
            same_b h3),
    )
  where
    not_true : (c : Bool) → not c ≡ true → c ≡ false
    not_true true h = cc
    not_true false h = refl

-- On every runtime, with or without `Buffer`, a token that `signJws` returns is valid to `verifyJws`,
-- which gives back the header that was made, the bytes of the payload and their text. This is so where
-- the module of the algorithm chosen accepts, for this key pair, the signatures that it makes, and these
-- are bytes, as many as the algorithm's signatures have; where the public key has its length too; where
-- the options are plain, the payload is not empty, and the verifier asks for no other `alg` or `kid`
-- than those signed.
pub verify_jws-sign_jws :
    (rt : Runtime) (m : JwsModules) (a : JwsAlgorithm) (payload : Payload)
    (bytes secret_key public_key : Bytes) (sign_opts : SignJwsOptions) (opts : VerifyJwsOptions)
    (token : Text)
    → BufferLaws rt
    → algorithm_for (chosen_alg sign_opts.alg secret_key) ≡ some a
    → Interoperable (setup_of m a) (setup_of m a) secret_key public_key
    → SignsWith (setup_of m a) secret_key (jws_spec a).signature_bytes
    → length public_key ≡ (jws_spec a).public_key_bytes
    → IsPlain sign_opts
    → payload_bytes payload ≡ ok bytes
    → All IsByte bytes
    → 0 < length bytes
    → Asks opts.alg (some (chosen_alg sign_opts.alg secret_key))
    → Asks opts.kid sign_opts.kid
    → sign_jws rt m payload secret_key (some sign_opts) ≡ ok token
    → verify_jws rt m (text token) (raw_key public_key) (some opts)
      ≡ ok (
          valid (record {
            header = protected_header (chosen_alg sign_opts.alg secret_key) sign_opts;
            payload = bytes;
            text = text_decode bytes;
          }))
unfolding verify_jws
verify_jws-sign_jws rt m a payload bytes sk pk sign_opts opts token laws found inter sized key plain
      read hb nb ask_alg ask_kid h =
    let alg = chosen_alg sign_opts.alg sk in
    let ms = protected_header alg sign_opts in
    let p = b64url rt (utf8 (stringify (object ms))) in
    let q = b64url rt bytes in
    let (free, made) = made_of rt m a payload bytes sk sign_opts token found read h in
    let (signature, hs, size, signed, written) =
      sign_segments-IsSigned rt m a sk pk _ p q token inter sized made in
    let (e_alg, e_kid, e_crit, e_b64) = protected_header_members alg sign_opts plain free in
    rw (written ∙ append_assoc p (dot ∷ q) (dot ∷ b64url rt signature)) (
      ap (λ r. ok (verdict r))
        (token_passes rt laws m a ms bytes signature pk opts p refl
          (protected_header-canonical alg sign_opts (algorithm-units alg a found) plain free) hb nb
          hs (subst (λ n. 0 < n) (sym size) (some_signature a))
          (header_passes opts ms alg sign_opts.kid a found ask_alg ask_kid e_alg e_kid e_crit e_b64)
          (signature_passes m a sk pk signature
            (record { protected = p; payload = q; signature = b64url rt signature }) inter key size
            signed)))
