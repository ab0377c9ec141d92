-- ===== src/Webhook/Delivery/RoundTrip.antt =====
-- A delivery that `signDelivery` of src/webhook.js signed passes `verifyDelivery` within the window.
use kxco_post_quantum.Prelude.{
  ℕ, zero, suc, ◌+◌, ◌-◌, ◌*◌, ◌/◌, ◌%◌, ◌<◌, ◌≤◌, ◌≡◌, refl, sym, ap, ◌∙◌, true, Bool-cases, inl,
  inr, [], ◌∷◌, ◌++◌, some, arith, ◌==◌, ==_iff, leb, if◌then◌else◌, length, all, All, map, Text,
  Bytes, Result, ok, err, ok-injective, >>=-eq-ok,
}
use mathlib.Core.Path.{subst}
use mathlib.Core.List.{foldl}
use kxco_post_quantum.Value.{Value, u8, text, is_truthy}
use kxco_post_quantum.Native.OperatorPin.{to_lower}
use kxco_post_quantum.Context.{absent}
use kxco_post_quantum.Codec.Equal.{bytes_equal_iff}
use kxco_post_quantum.Signature.{Setup, SignError, sign}
use kxco_post_quantum.Signature.Laws.{Interoperable, verify-sign}
use kxco_post_quantum.Webhook.Envelope.{
  WebhookError, signing_failed, envelope, is_digit, is_decimal,
}
use kxco_post_quantum.Webhook.Hmac.{Hmac, sha256_prefix, hmac_hex, verify_hmac}
use kxco_post_quantum.Webhook.Pq.{PqModules, set_for_secret_key, pq_sign, check_set, verify_pq}
use kxco_post_quantum.Webhook.Delivery.{
  SentHeaders, Sending, decimal_loop, to_decimal, sign_delivery, Received, header_value,
  timestamp_header, signature_header, pq_signature_header, pq_kid_header, Receiving, parse_decimal,
  distance, timestamp_in_window, check_hmac, check_pq, kid_matches, verify_delivery,
}

abbrev pub bound : ℕ → ℕ
bound zero = 1
bound (suc r) = 10 * bound r

abbrev value_from : ℕ → Text → ℕ
value_from acc s = foldl (λ n c. n * 10 + (c - 48)) acc s

decimal_loop-value :
    (r n : ℕ) (s : Text) → n < bound r → value_from 0 (decimal_loop r n s) ≡ value_from n s
unfolding decimal_loop
decimal_loop-value zero n s h = ap (λ k. value_from k s) (omega arith)
decimal_loop-value (suc r) n s h =
    let ih = decimal_loop-value r (n / 10) ((n % 10 + 48) ∷ s) (omega arith) in
    elim (Bool-cases (n / 10 == 0)) [
      | inl e ↦ let small = (==_iff (n / 10) 0).0 e in rw e (ap (λ k. value_from k s) (omega arith))
      | inr e ↦ rw e (ih ∙ ap (λ k. value_from k s) (omega arith))
    ]

digit : (n : ℕ) → is_digit (n % 10 + 48) ≡ true
digit n = ground arith

decimal_loop-digits :
    (r n c : ℕ) (s : Text)
    → all is_digit (c ∷ s) ≡ true
    → is_decimal (decimal_loop r n (c ∷ s)) ≡ true
unfolding decimal_loop
decimal_loop-digits zero n c s h = h
decimal_loop-digits (suc r) n c s h =
    let more = decimal_loop-digits r (n / 10) (n % 10 + 48) (c ∷ s) (rw (digit n, h) refl) in
    elim (Bool-cases (n / 10 == 0)) [ inl e ↦ rw (e, digit n, h) refl | inr e ↦ rw e more ]

to_decimal-is_decimal : (n : ℕ) → is_decimal (to_decimal n) ≡ true
unfolding to_decimal decimal_loop
to_decimal-is_decimal n =
    let more = decimal_loop-digits 19 (n / 10) (n % 10 + 48) [] (rw (digit n) refl) in
    elim (Bool-cases (n / 10 == 0)) [ inl e ↦ rw (e, digit n) refl | inr e ↦ rw e more ]

parse_decimal-to_decimal : (n : ℕ) → n < bound 20 → parse_decimal (to_decimal n) ≡ n
unfolding to_decimal
parse_decimal-to_decimal n h = decimal_loop-value 20 n [] h

verify_hmac-hmac_hex :
    (hmac : Hmac) (secret body : Value) (ts hex : Text)
    → hmac_hex hmac secret ts body ≡ ok hex
    → verify_hmac hmac secret ts body (sha256_prefix ++ hex) ≡ ok true
unfolding verify_hmac
verify_hmac-hmac_hex hmac secret body ts hex h =
    rw h (ap ok ((bytes_equal_iff (sha256_prefix ++ hex) (sha256_prefix ++ hex)).1 refl))

signed_hex :
    (r : Result SignError Text) (prefix pq : Text)
    → ◌≡◌ {A = Result WebhookError Text}
        (elim r [ ok sig ↦ ok (prefix ++ sig) | err e ↦ err signing_failed ])
        (ok pq)
    → (sig : Text) × (r ≡ ok sig) × (pq ≡ prefix ++ sig)
signed_hex (ok sig) prefix pq h = (sig, refl, sym (ok-injective h))
signed_hex (err e) prefix pq h = cc

pq_sign-signed :
    (m : PqModules) (secret_key : Bytes) (ts : Text) (body : Value) (pq : Text)
    → pq_sign m secret_key ts body ≡ ok pq
    → (env : Bytes) × (sig : Text) × (envelope ts body ≡ ok env)
      × (sign (set_for_secret_key m secret_key).setup secret_key (u8 env) absent ≡ ok sig)
      × (pq ≡ (set_for_secret_key m secret_key).prefix ++ sig)
unfolding pq_sign
pq_sign-signed m secret_key ts body pq h =
    let (env, r1, h1) = >>=-eq-ok (envelope ts body) _ h in
    let (sig, signed, e) = signed_hex _ (set_for_secret_key m secret_key).prefix pq h1 in
    (env, sig, r1, signed, e)

check_set-signed :
    (setup : Setup) (secret_key public_key env : Bytes) (ts sig : Text) (body : Value)
    → Interoperable setup setup secret_key public_key
    → envelope ts body ≡ ok env
    → sign setup secret_key (u8 env) absent ≡ ok sig
    → check_set setup public_key ts body sig ≡ ok true
unfolding check_set
check_set-signed setup secret_key public_key env ts sig body inter read signed =
    rw (read, verify-sign setup setup secret_key public_key (u8 env) absent sig inter signed) refl

-- The length of the public key that goes with a secret key.
abbrev pub public_key_bytes : Bytes → ℕ
public_key_bytes secret_key = if length secret_key == 4896 then 2592 else 1952

check_pq-pq_sign :
    (m : PqModules) (secret_key public_key : Bytes) (ts : Text) (body : Value) (pq : Text)
    → Interoperable
        (set_for_secret_key m secret_key).setup
        (set_for_secret_key m secret_key).setup
        secret_key
        public_key
    → length public_key ≡ public_key_bytes secret_key
    → pq_sign m secret_key ts body ≡ ok pq
    → check_pq m (some public_key) body (some ts) (some pq) true ≡ ok true
unfolding check_pq verify_pq
check_pq-pq_sign m secret_key public_key ts body pq inter size h =
    let (env, sig, read, signed, e) = pq_sign-signed m secret_key ts body pq h in
    elim (Bool-cases (length secret_key == 4896)) [
      | inl large ↦
          rw (e, large, size, large)
            (check_set-signed m.ml_dsa_87 secret_key public_key env ts sig body (rw large at inter)
              read (rw large at signed))
      | inr small ↦
          rw (e, small, size, small)
            (check_set-signed m.ml_dsa_65 secret_key public_key env ts sig body (rw small at inter)
              read (rw small at signed))
    ]

-- The headers arrive under their names in lower case, as HTTP servers hand them over, where each that
-- was sent is there with its value. Others may be there too.
abbrev pub Arrives : SentHeaders → Received → Type 0
Arrives h r = All (λ (sent : Text × Text). header_value (map to_lower sent.0) r ≡ text sent.1) h

check_hmac-hmac_hex :
    (hmac : Hmac) (secret body : Value) (ts hex : Text)
    → is_truthy secret ≡ true
    → hmac_hex hmac secret ts body ≡ ok hex
    → check_hmac hmac secret body (some ts) (some (sha256_prefix ++ hex)) true ≡ ok true
unfolding check_hmac
check_hmac-hmac_hex hmac secret body ts hex truthy h =
    rw truthy (verify_hmac-hmac_hex hmac secret body ts hex h)

le→leb : (a b : ℕ) → a ≤ b → leb a b ≡ true
le→leb a b h = ground arith

to_decimal-in_window :
    (later_ms window n : ℕ)
    → n < bound 20
    → distance later_ms (n * 1000) ≤ window * 1000
    → timestamp_in_window later_ms window (some (to_decimal n)) ≡ true
unfolding timestamp_in_window
to_decimal-in_window later_ms window n fits near =
    rw (to_decimal-is_decimal n, parse_decimal-to_decimal n fits) (le→leb _ _ near)

checks_pass :
    (hmac : Hmac) (m : PqModules) (later_ms : ℕ) (r : Received) (d : Receiving) (ts sig pq : Text)
    (kid : Value)
    → timestamp_header r ≡ text ts
    → signature_header r ≡ text sig
    → pq_signature_header r ≡ text pq
    → pq_kid_header r ≡ kid
    → timestamp_in_window later_ms d.window_seconds (some ts) ≡ true
    → check_hmac hmac d.hmac_secret d.raw_body (some ts) (some sig) true ≡ ok true
    → kid_matches d.pinned_kid kid ≡ true
    → check_pq m d.pq_public_key d.raw_body (some ts) (some pq) true ≡ ok true
    → verify_delivery hmac m later_ms r d
      ≡ ok (record { hmac_ok = true; pq_ok = true; timestamp_ok = true; kid_ok = true })
unfolding verify_delivery
checks_pass hmac m later_ms r d ts sig pq kid e1 e2 e3 e4 in_window mac matches pq_passes =
    rw (e1, e2, e3, e4, in_window, mac, matches, pq_passes) refl

-- A delivery that `signDelivery` signed passes every check of `verifyDelivery`, where each header arrives
-- under its name in lower case, with its value, and the body as it was sent, the receiver's clock is within the window of the second that was
-- signed, the two share a secret that is truthy, and the pinned key id is not truthy or is the sender's.
-- The module of the secret key's set accepts, for this key pair, the signatures that it makes; the public
-- key has the length of that set; and the second that was signed has at most 20 digits.
pub verify_delivery-sign_delivery :
    (hmac : Hmac) (m : PqModules) (now_ms later_ms window : ℕ) (d : Sending) (h : SentHeaders)
    (r : Received) (public_key : Bytes) (pinned : Value)
    → now_ms / 1000 < bound 20
    → distance later_ms (now_ms / 1000 * 1000) ≤ window * 1000
    → Interoperable
        (set_for_secret_key m d.pq_secret_key).setup
        (set_for_secret_key m d.pq_secret_key).setup
        d.pq_secret_key
        public_key
    → length public_key ≡ public_key_bytes d.pq_secret_key
    → is_truthy d.hmac_secret ≡ true
    → kid_matches pinned (text d.pq_kid) ≡ true
    → sign_delivery hmac m now_ms d ≡ ok h
    → Arrives h r
    → verify_delivery hmac m later_ms r (record {
      raw_body = d.raw_body;
      hmac_secret = d.hmac_secret;
      pq_public_key = some public_key;
      pinned_kid = pinned;
      window_seconds = window;
    })
      ≡ ok (record { hmac_ok = true; pq_ok = true; timestamp_ok = true; kid_ok = true })
unfolding sign_delivery
verify_delivery-sign_delivery hmac m now_ms later_ms window d h r public_key pinned fits near inter
      size secret kid signed arrives =
    let ts = to_decimal (now_ms / 1000) in
    let (hex, r1, h1) = >>=-eq-ok (hmac_hex hmac d.hmac_secret ts d.raw_body) _ signed in
    let (pq, r2, h2) = >>=-eq-ok (pq_sign m d.pq_secret_key ts d.raw_body) _ h1 in
    let (content_type, (e1, (e2, (e3, (e4, others))))) =
      subst (λ x. Arrives x r) (sym (ok-injective h2)) arrives in
    checks_pass hmac m later_ms r _ ts (sha256_prefix ++ hex) pq (text d.pq_kid) e1 e2 e3 e4
      (to_decimal-in_window later_ms window (now_ms / 1000) fits near)
      (check_hmac-hmac_hex hmac d.hmac_secret d.raw_body ts hex secret r1) kid
      (check_pq-pq_sign m d.pq_secret_key public_key ts d.raw_body pq inter size r2)
