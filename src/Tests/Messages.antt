-- ===== src/Tests/Messages.antt =====
-- The theorems on src/ml-dsa.js, src/backend.js and src/webhook.js at concrete inputs.
use kxco_post_quantum.Prelude.{
  false, ◌≡◌, ◌↔◌, ◌⊎◌, refl, true, [], ◌∷◌, ◌++◌, Option, none, some, replicate, All, Bytes,
  IsByte, codes, arith, ok,
}
use mathlib.Core.Path.{subst}
use kxco_post_quantum.Value.{Value, text, undefined}
use kxco_post_quantum.Context.{absent, normalize_context}
use kxco_post_quantum.Codec.Hex.{bytes_to_hex, hex_to_bytes}
use kxco_post_quantum.Codec.Equal.{bytes_equal}
use kxco_post_quantum.Codec.Utf8.{utf8}
use kxco_post_quantum.Signature.{
  Setup, uses_native, sign_bytes, sign_message, sign, verify_bytes, verify_message, verify,
  to_bytes, signature_bytes,
}
use kxco_post_quantum.Signature.Laws.{Interoperable, verify-sign}
use kxco_post_quantum.Native.{sig, pkcs8}
use kxco_post_quantum.Native.Calls.{Native}
use kxco_post_quantum.Backend.{backend, require_native_backend}
use kxco_post_quantum.Backend.Laws.{AllNative, require_native_backend_iff}
use kxco_post_quantum.Webhook.Envelope.{envelope, envelope_injective}
use kxco_post_quantum.Webhook.Envelope
use kxco_post_quantum.Webhook.Hmac.{Hmac, sha256_prefix, hmac_hex, verify_hmac}
use kxco_post_quantum.Webhook.Hmac.Laws.{verify_hmac_iff}
use kxco_post_quantum.Webhook.Pq.{PqModules, check_set, verify_pq}
use kxco_post_quantum.Webhook.Delivery.{
  Received, header_value, Receiving, Outcome, timestamp_in_window, check_hmac, check_pq,
  verify_delivery,
}
use kxco_post_quantum.Webhook.Delivery.Laws.{
  HmacPassed, PqPassed, verify_delivery-hmac_ok, verify_delivery-pq_ok,
}
use kxco_post_quantum.Tests.Samples.{seed32, seed32-IsByte}

-- A scheme with one signature, which it accepts.
abbrev signature : Bytes
signature = 1 ∷ 2 ∷ []

abbrev pub scheme : Setup
scheme = record {
  native_alg = codes "ML-DSA-65";
  js = record {
    sign = λ sk msg ctx. some signature;
    verify = λ pk msg sig ctx. some (bytes_equal sig signature);
  };
  native = none;
}

abbrev pub public_key : Bytes
public_key = replicate 1952 5

abbrev hi : Value
hi = text (codes "hi")

signs_bytes_of :
    (message : Bytes) (context : Option Bytes) (s : Bytes)
    → sign_bytes scheme seed32 message context ≡ some s
    → signature ≡ s
unfolding sign_bytes uses_native
signs_bytes_of message context s h = cc

pub scheme-Interoperable : Interoperable scheme scheme seed32 public_key
unfolding verify_bytes uses_native bytes_equal
scheme-Interoperable = record {
  accepts = λ message context s h.
      subst (λ x. verify_bytes scheme public_key message x context ≡ some true)
        (signs_bytes_of message context s h) refl;
  signs_bytes =
      λ message context s h. subst (All IsByte) (signs_bytes_of message context s h) (omega arith);
}

signs_hi : sign scheme seed32 hi absent ≡ ok (codes "0102")
unfolding sign sign_message sign_bytes uses_native normalize_context to_bytes utf8 bytes_to_hex
signs_hi = refl

verify-sign_example : verify scheme public_key hi (text (codes "0102")) absent ≡ ok true
verify-sign_example =
    verify-sign scheme scheme seed32 public_key hi absent (codes "0102") scheme-Interoperable
      signs_hi

-- The envelope of "100" and "hi".
abbrev enveloped : Bytes
enveloped = codes "100.hi"

envelopes : envelope (codes "100") hi ≡ ok enveloped
unfolding envelope Envelope.to_bytes utf8
envelopes = refl

envelope_injective_example :
    (codes "100" ≡ codes "100") × (Envelope.to_bytes hi ≡ Envelope.to_bytes hi)
envelope_injective_example =
    envelope_injective (codes "100") (codes "100") hi hi enveloped refl refl envelopes envelopes

abbrev hmac : Hmac
hmac key message = seed32

abbrev secret : Value
secret = text (codes "s")

reads_secret : Envelope.to_bytes secret ≡ ok (codes "s")
unfolding Envelope.to_bytes utf8
reads_secret = refl

verify_hmac_iff_example :
    (verify_hmac hmac secret (codes "100") hi (codes "sha256=00") ≡ ok true) ↔ (
      (codes "sha256=00" ≡ sha256_prefix ++ bytes_to_hex seed32)
      ⊎ (codes "sha256=00" ≡ bytes_to_hex seed32))
verify_hmac_iff_example =
    verify_hmac_iff hmac secret hi (codes "100") (codes "sha256=00") (codes "s") enveloped envelopes
      reads_secret seed32-IsByte

abbrev modules : PqModules
modules = record { ml_dsa_65 = scheme; ml_dsa_87 = scheme }

abbrev received : Received
received =
    (codes "x-kxco-timestamp", text (codes "100"))
    ∷ (
      codes "x-kxco-signature",
      text (
          codes "sha256="
          ++ codes "0707070707070707070707070707070707070707070707070707070707070707"),
    )
    ∷ (codes "x-kxco-pq-signature", text (codes "0102"))
    ∷ []

abbrev receiving : Receiving
receiving = record {
  raw_body = hi;
  hmac_secret = secret;
  pq_public_key = some public_key;
  pinned_kid = undefined;
  window_seconds = 300;
}

abbrev all_true : Outcome
all_true = record { hmac_ok = true; pq_ok = true; timestamp_ok = true; kid_ok = true }

verifies : verify_delivery hmac modules 101000 received receiving ≡ ok all_true
unfolding verify_delivery header_value timestamp_in_window check_hmac check_pq verify_hmac hmac_hex
    verify_pq check_set envelope Envelope.to_bytes utf8 bytes_to_hex bytes_equal verify
    normalize_context verify_message to_bytes signature_bytes hex_to_bytes verify_bytes uses_native
verifies = refl

verify_delivery-hmac_ok_example : HmacPassed hmac 101000 received receiving
verify_delivery-hmac_ok_example =
    verify_delivery-hmac_ok hmac modules 101000 received receiving all_true verifies refl

verify_delivery-pq_ok_example : PqPassed modules 101000 received receiving
verify_delivery-pq_ok_example =
    verify_delivery-pq_ok hmac modules 101000 received receiving all_true verifies refl

-- A native backend with one parameter set.
abbrev openssl_65 : Native
openssl_65 = record {
  crypto = record {
    generate = λ name. none;
    generate_pair = λ random name. none;
    imports_jwk = λ name. false;
    sign = λ key message context. none;
    verify = λ key message context sig. none;
    encapsulate = λ random key. none;
    decapsulate = λ key cipher_text. none;
  };
  supported =
      record {
        entry = record {
          name = codes "ML-DSA-65";
          node_name = codes "ml-dsa-65";
          kind = sig;
          private_form = pkcs8;
        };
        algid = [];
      }
      ∷ [];
  honours_context = true;
  has_buffer = true;
}

require_native_backend_iff_example :
    (require_native_backend none (some openssl_65) (codes "ML-DSA-65" ∷ [])
      ≡ ok (backend none (some openssl_65)))
    ↔ ((o : Native) × (some openssl_65 ≡ some o)
        × AllNative o (codes "ML-DSA-65" ∷ [])
        × (backend none (some openssl_65) ≡ backend none (some openssl_65)))
require_native_backend_iff_example =
    require_native_backend_iff none (some openssl_65) (codes "ML-DSA-65" ∷ [])
      (backend none (some openssl_65))
