-- ===== src/Tests/Deliveries.antt =====
-- src/webhook.js: a delivery that is signed and received.
use kxco_post_quantum.Prelude.{◌≡◌, refl, true, [], ◌∷◌, none, some, codes, arith, ok}
use kxco_post_quantum.Value.{text}
use kxco_post_quantum.Context.{normalize_context}
use kxco_post_quantum.Codec.Hex.{bytes_to_hex}
use kxco_post_quantum.Codec.Utf8.{utf8}
use kxco_post_quantum.Signature.{sign_bytes, sign_message, sign, to_bytes, uses_native}
use kxco_post_quantum.Webhook.Envelope.{envelope}
use kxco_post_quantum.Webhook.Envelope
use kxco_post_quantum.Webhook.Hmac.{Hmac, hmac_hex}
use kxco_post_quantum.Webhook.Pq.{PqModules, pq_sign}
use kxco_post_quantum.Webhook.Delivery.{
  SentHeaders, Received, header_value, Sending, decimal_loop, to_decimal, sign_delivery,
  verify_delivery,
}
use kxco_post_quantum.Webhook.Delivery.RoundTrip.{Arrives, verify_delivery-sign_delivery}
use kxco_post_quantum.Tests.Messages.{scheme, scheme-Interoperable, public_key}
use kxco_post_quantum.Tests.Samples.{seed32}

abbrev mac : Hmac
mac key message = 10 ∷ []

abbrev pair : PqModules
pair = record { ml_dsa_65 = scheme; ml_dsa_87 = scheme }

abbrev sending : Sending
sending = record {
  raw_body = text (codes "hi");
  hmac_secret = text (codes "s");
  pq_secret_key = seed32;
  pq_kid = codes "k";
  event = none;
  delivery_id = none;
}

abbrev headers : SentHeaders
headers =
    (codes "Content-Type", codes "application/json")
    ∷ (codes "X-KXCO-Timestamp", codes "1234")
    ∷ (codes "X-KXCO-Signature", codes "sha256=0a")
    ∷ (codes "X-KXCO-PQ-Signature", codes "ml-dsa-65=0102")
    ∷ (codes "X-KXCO-PQ-Kid", codes "k")
    ∷ []

abbrev received : Received
received =
    (codes "host", text (codes "h"))
    ∷ (codes "content-type", text (codes "application/json"))
    ∷ (codes "x-kxco-pq-kid", text (codes "k"))
    ∷ (codes "x-kxco-timestamp", text (codes "1234"))
    ∷ (codes "x-kxco-signature", text (codes "sha256=0a"))
    ∷ (codes "x-kxco-pq-signature", text (codes "ml-dsa-65=0102"))
    ∷ []

arrives : Arrives headers received
unfolding header_value
arrives = (refl, (refl, (refl, (refl, (refl, tt)))))

sends : sign_delivery mac pair 1234567 sending ≡ ok headers
unfolding sign_delivery to_decimal decimal_loop hmac_hex pq_sign envelope Envelope.to_bytes utf8
    bytes_to_hex sign sign_message sign_bytes uses_native normalize_context to_bytes
sends = refl

-- Two seconds later, with a window of five.
verify_delivery-sign_delivery_example :
    verify_delivery mac pair 1236500 received (record {
      raw_body = text (codes "hi");
      hmac_secret = text (codes "s");
      pq_public_key = some public_key;
      pinned_kid = text (codes "k");
      window_seconds = 5;
    })
    ≡ ok (record { hmac_ok = true; pq_ok = true; timestamp_ok = true; kid_ok = true })
verify_delivery-sign_delivery_example =
    verify_delivery-sign_delivery mac pair 1234567 1236500 5 sending headers received public_key
      (text (codes "k")) (omega arith) (omega arith) scheme-Interoperable refl refl refl sends
      arrives
