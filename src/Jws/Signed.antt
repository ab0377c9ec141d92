-- ===== src/Jws/Signed.antt =====
-- What a token of src/jws.js that was signed passes: the check of the header and of the signature.
use kxco_post_quantum.Prelude.{
  ℕ, ◌≡◌, refl, sym, ap, ◌∙◌, true, ◌∷◌, ◌++◌, Option, none, some, ==_iff, length, All, Text, Bytes,
  IsByte, codes, text_eq_iff, Result, ok, err, ok-injective, >>=-eq-ok,
}
use kxco_post_quantum.Value.{u8}
use kxco_post_quantum.Context.{absent, normalize_context}
use kxco_post_quantum.Codec.Utf8.{utf8}
use kxco_post_quantum.Codec.Hex.{bytes_to_hex, hex_to_bytes}
use kxco_post_quantum.Codec.Hex.Laws.{hex_to_bytes-bytes_to_hex}
use kxco_post_quantum.Codec.Base64.{Runtime, b64url}
use kxco_post_quantum.Json.{Json, Members, string, get_member}
use kxco_post_quantum.Signature.{Setup, SignError, sign_bytes, sign}
use kxco_post_quantum.Signature.Laws.{Interoperable, verify-sign, sign_message-eq-ok}
use kxco_post_quantum.Jws.{
  JwsAlgorithm, JwsModules, jws_spec, setup_of, algorithm_for, algorithm_for_member,
}
use kxco_post_quantum.Jws.Header.{json_text}
use kxco_post_quantum.Jws.Segments.{Parts, dot, signing_text}
use kxco_post_quantum.Jws.Sign.{or_failed, or_invalid, sign_segments}
use kxco_post_quantum.Jws.Verify.{VerifyJwsOptions, matches_option, check_header, check_signature}

-- What the verifier may ask for: nothing, or what was signed.
abbrev pub Asks : Option Text → Option Text → Type 0
Asks none o = Unit {0}
Asks (some s) o = o ≡ some s

pub matches_asked :
    (asked given : Option Text) (v : Option Json)
    → Asks asked given
    → v ≡ json_text given
    → matches_option asked v ≡ true
matches_asked none given v h e = refl
matches_asked (some s) given v h e = rw (e, h) ((text_eq_iff s s).1 refl)

algorithm_back :
    (alg : Text) (a : JwsAlgorithm)
    → algorithm_for alg ≡ some a
    → algorithm_for_member (some (string alg)) ≡ some a
unfolding algorithm_for_member
algorithm_back alg a h = h

pub header_passes :
    (opts : VerifyJwsOptions) (ms : Members) (alg : Text) (kid : Option Text) (a : JwsAlgorithm)
    → algorithm_for alg ≡ some a
    → Asks opts.alg (some alg)
    → Asks opts.kid kid
    → get_member (codes "alg") ms ≡ some (string alg)
    → get_member (codes "kid") ms ≡ json_text kid
    → get_member (codes "crit") ms ≡ none
    → get_member (codes "b64") ms ≡ none
    → check_header opts ms ≡ ok a
unfolding check_header
header_passes opts ms alg kid a found ask_alg ask_kid e_alg e_kid e_crit e_b64 =
    rw
      (
        matches_asked opts.kid kid (get_member (codes "kid") ms) ask_kid e_kid,
        e_alg,
        algorithm_back alg a found,
        matches_asked opts.alg (some alg) (some (string alg)) ask_alg refl,
        e_crit,
        e_b64,
      )
      refl

-- A signer whose signatures have one length.
abbrev pub SignsWith : Setup → Bytes → ℕ → Type 0
SignsWith m secret_key size =
    (message : Bytes) (context : Option Bytes) (signature : Bytes)
    → sign_bytes m secret_key message context ≡ some signature
    → length signature ≡ size

sign-eq-ok :
    (m : Setup) (secret_key message : Bytes) (hex : Text)
    → sign m secret_key (u8 message) absent ≡ ok hex
    → (signature : Bytes) × (context : Option Bytes) × (read : Bytes) × (sign_bytes m secret_key
          read context
        ≡ some signature)
      × (bytes_to_hex signature ≡ hex)
unfolding sign normalize_context
sign-eq-ok m secret_key message hex h =
    let (read, signature, _, signed, written) =
      sign_message-eq-ok m secret_key (u8 message) none hex h in
    (signature, none, read, signed, written)

failed-ok : (r : Result SignError Text) (hex : Text) → or_failed r ≡ ok hex → r ≡ ok hex
failed-ok (ok x) hex h = cc
failed-ok (err e) hex h = cc

invalid-ok {ε} : {E : Type ε} (r : Result E Bytes) (bs : Bytes) → or_invalid r ≡ ok bs → r ≡ ok bs
invalid-ok (ok x) bs h = cc
invalid-ok (err e) bs h = cc

-- What the token of two segments ends with.
abbrev pub IsSigned : Runtime → Setup → Bytes → ℕ → (protected payload token : Text) → Type 0
IsSigned rt m secret_key size protected payload token =
    (signature : Bytes) × All IsByte signature
    × (length signature ≡ size)
    × (sign m secret_key (u8 (utf8 (signing_text protected payload))) absent
        ≡ ok (bytes_to_hex signature))
    × (token ≡ signing_text protected payload ++ dot ∷ b64url rt signature)

pub sign_segments-IsSigned :
    (rt : Runtime) (m : JwsModules) (a : JwsAlgorithm) (secret_key public_key : Bytes) (size : ℕ)
    (protected payload token : Text)
    → Interoperable (setup_of m a) (setup_of m a) secret_key public_key
    → SignsWith (setup_of m a) secret_key size
    → sign_segments rt m a secret_key protected payload ≡ ok token
    → IsSigned rt (setup_of m a) secret_key size protected payload token
unfolding sign_segments
sign_segments-IsSigned rt m a secret_key public_key size protected payload token inter sized h =
    let message = utf8 (signing_text protected payload) in
    let (hex, r1, h1) =
      >>=-eq-ok (or_failed (sign (setup_of m a) secret_key (u8 message) absent)) _ h in
    let (bytes, r2, h2) = >>=-eq-ok (or_invalid (hex_to_bytes hex)) _ h1 in
    let returned = failed-ok _ hex r1 in
    let (signature, context, read, signed, written) =
      sign-eq-ok (setup_of m a) secret_key message hex returned in
    let bytes_of = inter.signs_bytes read context signature signed in
    let same = ok-injective (
      sym (hex_to_bytes-bytes_to_hex signature bytes_of)
      ∙ ap hex_to_bytes written
      ∙ invalid-ok _ bytes r2) in
    (
      signature,
      bytes_of,
      sized read context signature signed,
      returned ∙ ap ok (sym written),
      sym (ok-injective h2)
          ∙ ap (λ x. signing_text protected payload ++ dot ∷ b64url rt x) (sym same),
    )

pub signature_passes :
    (m : JwsModules) (a : JwsAlgorithm) (secret_key public_key signature : Bytes) (parts : Parts)
    → Interoperable (setup_of m a) (setup_of m a) secret_key public_key
    → length public_key ≡ (jws_spec a).public_key_bytes
    → length signature ≡ (jws_spec a).signature_bytes
    → sign (setup_of m a) secret_key (u8 (utf8 (signing_text parts.protected parts.payload))) absent
      ≡ ok (bytes_to_hex signature)
    → check_signature m a public_key parts signature ≡ ok tt
unfolding check_signature
signature_passes m a secret_key public_key signature parts inter key size signed =
    rw
      (
        (==_iff _ _).1 key,
        (==_iff _ _).1 size,
        verify-sign (setup_of m a) (setup_of m a) secret_key public_key
            (u8 (utf8 (signing_text parts.protected parts.payload))) absent (bytes_to_hex signature)
            inter signed,
      )
      refl
