-- ===== src/Webhook/Delivery.antt =====
-- `signDelivery` and `verifyDelivery` of src/webhook.js. The clock is an argument, in
-- milliseconds as `Date.now()` gives them.
pub mod Laws
pub mod RoundTrip
use kxco_post_quantum.Prelude.{
  ℕ, zero, suc, ◌+◌, ◌-◌, ◌*◌, ◌/◌, ◌%◌, Bool, true, false, not, ◌&&◌, List, [], ◌∷◌, ◌++◌, Option,
  none, some, leb, ltb, ◌==◌, if◌then◌else◌, Text, Bytes, codes, text_eq, Result, ok, err, ◌>>=◌,
}
use mathlib.Core.List.{foldl}
use kxco_post_quantum.Value.{Value, text, undefined, is_truthy, is_text}
use kxco_post_quantum.Webhook.Envelope.{WebhookError, is_decimal}
use kxco_post_quantum.Webhook.Hmac.{Hmac, sha256_prefix, hmac_hex, verify_hmac}
use kxco_post_quantum.Webhook.Pq.{PqModules, pq_sign, verify_pq}

-- The headers of a delivery by their names, in the order of the object that is returned.
abbrev pub SentHeaders : Type 0
SentHeaders = List (Text × Text)

pub record Sending : Type 0 where
  pub raw_body : Value
  pub hmac_secret : Value
  pub pq_secret_key : Bytes
  pub pq_kid : Text
  pub event : Option Text
  pub delivery_id : Option Text

-- `if (value) headers[name] = value`
abbrev pub header_if : Text → Option Text → SentHeaders → SentHeaders
header_if name none hs = hs
header_if name (some []) hs = hs
header_if name (some (c ∷ s)) hs = (name, c ∷ s) ∷ hs

-- `n.toString()`: the decimal digits, by as many rounds as the number may have digits.
unfoldable pub decimal_loop : ℕ → ℕ → Text → Text
decimal_loop zero n s = s
decimal_loop (suc rounds) n s =
    let more = decimal_loop rounds (n / 10) ((n % 10 + 48) ∷ s) in
    if n / 10 == 0 then (n % 10 + 48) ∷ s else more

-- A clock of fewer than 20 digits.
unfoldable pub to_decimal : ℕ → Text
unfolding decimal_loop
to_decimal n = decimal_loop 20 n []

unfoldable pub sign_delivery : Hmac → PqModules → ℕ → Sending → Result WebhookError SentHeaders
sign_delivery hmac m now_ms d = do
  let ts = to_decimal (now_ms / 1000)
  hex ← hmac_hex hmac d.hmac_secret ts d.raw_body
  pq ← pq_sign m d.pq_secret_key ts d.raw_body
  ok (
      (codes "Content-Type", codes "application/json")
      ∷ (codes "X-KXCO-Timestamp", ts)
      ∷ (codes "X-KXCO-Signature", sha256_prefix ++ hex)
      ∷ (codes "X-KXCO-PQ-Signature", pq)
      ∷ (codes "X-KXCO-PQ-Kid", d.pq_kid)
      ∷ header_if (codes "X-KXCO-Event") d.event
          (header_if (codes "X-KXCO-Delivery") d.delivery_id []))

-- The headers as they arrive, any value each.
abbrev pub Received : Type 0
Received = List (Text × Value)

-- `headers[name]`
unfoldable pub header_value : Text → Received → Value
header_value name [] = undefined
header_value name ((n, v) ∷ hs) = if text_eq n name then v else header_value name hs

abbrev pub timestamp_header : Received → Value
timestamp_header hs = header_value (codes "x-kxco-timestamp") hs

abbrev pub signature_header : Received → Value
signature_header hs = header_value (codes "x-kxco-signature") hs

abbrev pub pq_signature_header : Received → Value
pq_signature_header hs = header_value (codes "x-kxco-pq-signature") hs

abbrev pub pq_kid_header : Received → Value
pq_kid_header hs = header_value (codes "x-kxco-pq-kid") hs

pub record Receiving : Type 0 where
  pub raw_body : Value
  pub hmac_secret : Value
  pub pq_public_key : Option Bytes
  pub pinned_kid : Value
  pub window_seconds : ℕ

-- `headerString`
abbrev pub header_string : Value → Option Text
header_string (text s) = some s
header_string _ = none

-- `parseInt(ts, 10)` on digits alone.
abbrev pub parse_decimal : Text → ℕ
parse_decimal s = foldl (λ n c. n * 10 + (c - 48)) 0 s

abbrev pub distance : ℕ → ℕ → ℕ
distance a b = (a - b) + (b - a)

-- `Math.abs(Date.now() / 1000 - tsNum) <= windowSeconds`, in milliseconds. The quotient is
-- rounded to a float, and rounding cannot carry it past a whole number of seconds; a timestamp
-- too large for a float is outside the window on both readings.
unfoldable pub timestamp_in_window : ℕ → ℕ → Option Text → Bool
timestamp_in_window now_ms window none = false
timestamp_in_window now_ms window (some ts) =
    is_decimal ts && leb (distance now_ms (parse_decimal ts * 1000)) (window * 1000)

pub record Outcome : Type 0 where
  pub hmac_ok : Bool
  pub pq_ok : Bool
  pub timestamp_ok : Bool
  pub kid_ok : Bool

-- `(hmacSecret && sigHmac && timestampOk) ? verifyHmac(...) : false`
unfoldable pub check_hmac :
    Hmac → Value → Value → Option Text → Option Text → Bool → Result WebhookError Bool
check_hmac hmac secret raw_body (some ts) (some (c ∷ s)) true =
    if is_truthy secret then verify_hmac hmac secret ts raw_body (c ∷ s) else ok false
check_hmac hmac secret raw_body ts sig timestamp_ok = ok false

-- `(pqPublicKey && sigPq && timestampOk && kidOk) ? verifyPq(...) : false`
unfoldable pub check_pq :
    PqModules → Option Bytes → Value → Option Text → Option Text → Bool → Result WebhookError Bool
check_pq m (some public_key) raw_body (some ts) (some (c ∷ s)) true =
    verify_pq m public_key ts raw_body (c ∷ s)
check_pq m public_key raw_body ts sig both_ok = ok false

-- `kid === pinnedKid` for a pin that passes an `if`.
abbrev pub kid_is : Value → Option Text → Bool
kid_is pinned none = false
kid_is pinned (some k) = is_text k pinned

-- `pinnedKid ? kid === pinnedKid : true`
abbrev pub kid_matches : Value → Value → Bool
kid_matches pinned kid = if is_truthy pinned then kid_is pinned (header_string kid) else true

unfoldable pub verify_delivery :
    Hmac → PqModules → ℕ → Received → Receiving → Result WebhookError Outcome
verify_delivery hmac m now_ms h d = do
  let ts = header_string (timestamp_header h)
  let timestamp_ok = timestamp_in_window now_ms d.window_seconds ts
  hmac_ok ←
      check_hmac hmac d.hmac_secret d.raw_body ts (header_string (signature_header h)) timestamp_ok
  let kid_ok = kid_matches d.pinned_kid (pq_kid_header h)
  pq_ok ←
      check_pq m d.pq_public_key d.raw_body ts (header_string (pq_signature_header h))
        (timestamp_ok && kid_ok)
  ok (record { hmac_ok = hmac_ok; pq_ok = pq_ok; timestamp_ok = timestamp_ok; kid_ok = kid_ok })
