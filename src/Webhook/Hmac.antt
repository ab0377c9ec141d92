-- ===== src/Webhook/Hmac.antt =====
-- `hmacHex` and `verifyHmac` of src/webhook.js.
pub mod Laws
use kxco_post_quantum.Prelude.{
  ℕ, zero, suc, Bool, true, false, ◌&&◌, List, [], ◌∷◌, ◌++◌, ◌==◌, if◌then◌else◌, Text, Bytes,
  codes, Result, ok, err, ◌>>=◌, length, drop,
}
use kxco_post_quantum.Value.{Value}
use kxco_post_quantum.Codec.Hex.{bytes_to_hex}
use kxco_post_quantum.Codec.Equal.{bytes_equal}
use kxco_post_quantum.Webhook.Envelope.{WebhookError, to_bytes, envelope}

abbrev pub Hmac : Type 0
Hmac = (key message : Bytes) → Bytes

-- `s.startsWith(p)`
abbrev pub starts_with : Text → Text → Bool
starts_with [] s = true
starts_with (c ∷ p) [] = false
starts_with (c ∷ p) (d ∷ s) = c == d && starts_with p s

abbrev pub sha256_prefix : Text
sha256_prefix = codes "sha256="

unfoldable pub hmac_hex : Hmac → Value → Text → Value → Result WebhookError Text
hmac_hex hmac secret timestamp raw_body = do
  env ← envelope timestamp raw_body
  key ← to_bytes secret
  ok (bytes_to_hex (hmac key env))

-- `constTimeEqualStrings` is the loop of `bytes_equal`.
unfoldable pub verify_hmac : Hmac → Value → Text → Value → Text → Result WebhookError Bool
verify_hmac hmac secret timestamp raw_body sig_header = do
  hex ← hmac_hex hmac secret timestamp raw_body
  let expected = sha256_prefix ++ hex
  let given =
      if starts_with sha256_prefix sig_header then sig_header else sha256_prefix ++ sig_header
  ok (bytes_equal expected given)
