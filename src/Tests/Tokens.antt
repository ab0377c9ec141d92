-- ===== src/Tests/Tokens.antt =====
-- src/jws.js at concrete inputs.
use kxco_post_quantum.Prelude.{
  ◌≡◌, refl, sym, ap, true, false, [], ◌∷◌, ◌++◌, Option, none, some, length, replicate, All, Text,
  Bytes, IsByte, codes, arith, ok,
}
use mathlib.Core.Path.{subst}
use kxco_post_quantum.Value.{text}
use kxco_post_quantum.Context.{normalize_context}
use kxco_post_quantum.Codec.Equal.{bytes_equal, bytes_equal_iff}
use kxco_post_quantum.Codec.Utf8.{utf8, encode_from}
use kxco_post_quantum.Codec.Utf8.Decode.{text_decode}
use kxco_post_quantum.Codec.Hex.Laws.{hex_to_bytes-bytes_to_hex}
use kxco_post_quantum.Codec.Base64.{b64url}
use kxco_post_quantum.Json.{string, object, end_members, member, get_member}
use kxco_post_quantum.Json.Print.{stringify}
use kxco_post_quantum.Json.Canonical.{IsCanonical, MembersAreCanonical}
use kxco_post_quantum.Signature.{
  Setup, sign_bytes, uses_native, verify_bytes, sign, sign_message, to_bytes,
}
use kxco_post_quantum.Signature.Laws.{Interoperable}
use kxco_post_quantum.Jws.{JwsModules, ml_dsa_65, algorithm_for}
use kxco_post_quantum.Jws.Segments.{not_base64url, dot, signing_text}
use kxco_post_quantum.Jws.Sign.{
  Payload, text_payload, SignJwsOptions, sign_jws, sign_segments, chosen_alg, protected_header,
  payload_bytes, has_reserved,
}
use kxco_post_quantum.Jws.Header.{IsPlain}
use kxco_post_quantum.Jws.Signed.{SignsWith}
use kxco_post_quantum.Jws.Verify.{
  decode_jws_header, VerifyJwsOptions, VerifiedJws, raw_key, valid, invalid, malformed, verify_jws,
}
use kxco_post_quantum.Jws.Verify.Header.{decode_jws_header-verify_jws}
use kxco_post_quantum.Jws.Verify.Laws.{Accepted, verify_jws-Accepted}
use kxco_post_quantum.Jws.RoundTrip.{verify_jws-sign_jws}
use kxco_post_quantum.Jws.Empty.{verify_jws-sign_jws_empty}
use kxco_post_quantum.Tests.Samples.{replicate-IsByte, node, node-BufferLaws}

-- A scheme with one signature, of the length of ML-DSA-65.
abbrev long_signature : Bytes
long_signature = replicate 3309 1

abbrev long_scheme : Setup
long_scheme = record {
  native_alg = codes "ML-DSA-65";
  js = record {
    sign = λ sk msg ctx. some long_signature;
    verify = λ pk msg sig ctx. some (bytes_equal sig long_signature);
  };
  native = none;
}

abbrev modules : JwsModules
modules = record { setup_65 = long_scheme; setup_87 = long_scheme }

abbrev key_65 : Bytes
key_65 = replicate 1952 5

abbrev secret_65 : Bytes
secret_65 = replicate 4032 6

signs_so :
    (message : Bytes) (context : Option Bytes) (s : Bytes)
    → sign_bytes long_scheme secret_65 message context ≡ some s
    → long_signature ≡ s
unfolding sign_bytes uses_native
signs_so message context s h = cc

long_scheme-Interoperable : Interoperable long_scheme long_scheme secret_65 key_65
unfolding verify_bytes uses_native
long_scheme-Interoperable = record {
  accepts = λ message context s h.
      subst (λ x. verify_bytes long_scheme key_65 message x context ≡ some true)
        (signs_so message context s h)
        (ap some ((bytes_equal_iff long_signature long_signature).1 refl));
  signs_bytes = λ message context s h.
      subst (All IsByte) (signs_so message context s h) (replicate-IsByte 3309 1 (omega arith));
}

long_scheme-SignsWith : SignsWith long_scheme secret_65 3309
long_scheme-SignsWith message context s h = ap length (sym (signs_so message context s h))

-- No `alg`: the length of the secret key decides.
abbrev sign_options : SignJwsOptions
sign_options = record {
  alg = none;
  kid = some (codes "k1");
  typ = none;
  header = member (codes "iss") (string (codes "a")) end_members;
}

abbrev verify_options : VerifyJwsOptions
verify_options = record { alg = none; kid = some (codes "k1") }

sign_options-IsPlain : IsPlain sign_options
unfolding MembersAreCanonical IsCanonical get_member
sign_options-IsPlain = record {
  typ_units = tt;
  kid_units = omega arith;
  header_canonical = (omega arith, refl, omega arith, tt);
  no_crit = refl;
  no_b64 = refl;
}

chosen : algorithm_for (chosen_alg sign_options.alg secret_65) ≡ some ml_dsa_65
unfolding algorithm_for chosen_alg
chosen = refl

abbrev token_of : Bytes → Text
token_of payload =
    signing_text
      (b64url node (utf8 (stringify (object (protected_header (codes "ML-DSA-65") sign_options)))))
      (b64url node payload)
    ++ dot ∷ b64url node long_signature

signed_segments :
    (p q : Text)
    → sign_segments node modules ml_dsa_65 secret_65 p q
      ≡ ok (signing_text p q ++ dot ∷ b64url node long_signature)
unfolding sign_segments sign normalize_context sign_message to_bytes sign_bytes uses_native
signed_segments p q =
    rw (hex_to_bytes-bytes_to_hex long_signature (replicate-IsByte 3309 1 (omega arith))) refl

signed_token :
    (payload : Payload) (bytes : Bytes)
    → payload_bytes payload ≡ ok bytes
    → sign_jws node modules payload secret_65 (some sign_options) ≡ ok (token_of bytes)
unfolding sign_jws
signed_token payload bytes read = rw (chosen, unreserved, read, named) (signed_segments _ _)
  where
    unreserved : has_reserved sign_options.header ≡ false
    unreserved = unfold has_reserved in refl

    named : chosen_alg sign_options.alg secret_65 ≡ codes "ML-DSA-65"
    named = unfold chosen_alg in refl

abbrev hi : Payload
hi = text_payload (codes "hi")

hi_bytes : payload_bytes hi ≡ ok (codes "hi")
unfolding payload_bytes utf8 encode_from
hi_bytes = refl

abbrev verified : VerifiedJws
verified = record {
  header = protected_header (chosen_alg none secret_65) sign_options;
  payload = codes "hi";
  text = text_decode (codes "hi");
}

verify_jws-sign_jws_example :
    verify_jws node modules (text (token_of (codes "hi"))) (raw_key key_65) (some verify_options)
    ≡ ok (valid verified)
verify_jws-sign_jws_example =
    verify_jws-sign_jws node modules ml_dsa_65 hi (codes "hi") secret_65 key_65 sign_options
      verify_options (token_of (codes "hi")) node-BufferLaws chosen long_scheme-Interoperable
      long_scheme-SignsWith refl sign_options-IsPlain hi_bytes (omega arith) (omega arith) tt refl
      (signed_token hi (codes "hi") hi_bytes)

verify_jws-Accepted_example :
    Accepted node modules (token_of (codes "hi")) key_65 verify_options verified
verify_jws-Accepted_example =
    verify_jws-Accepted node modules (token_of (codes "hi")) (raw_key key_65) verify_options
      verified verify_jws-sign_jws_example

nothing_bytes : payload_bytes (text_payload []) ≡ ok []
unfolding payload_bytes utf8 encode_from
nothing_bytes = refl

verify_jws-sign_jws_empty_example :
    verify_jws node modules (text (token_of [])) (raw_key key_65) (some verify_options)
    ≡ ok (invalid (malformed not_base64url))
verify_jws-sign_jws_empty_example =
    verify_jws-sign_jws_empty node modules ml_dsa_65 (text_payload []) secret_65 key_65 sign_options
      (token_of []) (raw_key key_65) verify_options node-BufferLaws chosen long_scheme-Interoperable
      long_scheme-SignsWith sign_options-IsPlain nothing_bytes
      (signed_token (text_payload []) [] nothing_bytes)

decode_jws_header-verify_jws_example :
    decode_jws_header node (text (token_of (codes "hi"))) ≡ some verified.header
decode_jws_header-verify_jws_example =
    decode_jws_header-verify_jws node modules (token_of (codes "hi")) (raw_key key_65)
      verify_options verified verify_jws-sign_jws_example
