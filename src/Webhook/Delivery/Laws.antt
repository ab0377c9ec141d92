-- ===== src/Webhook/Delivery/Laws.antt =====
-- What a delivery that `verifyDelivery` of src/webhook.js accepts has passed.
use kxco_post_quantum.Prelude.{
  ℕ, ◌≡◌, refl, ap, ◌∙◌, Bool, true, false, ◌&&◌, Bool-cases, inl, inr, [], ◌∷◌, Option, none, some,
  Text, Bytes, Result, ok, >>=-eq-ok, ok-injective,
}
use mathlib.Core.Path.{subst}
use kxco_post_quantum.Value.{Value, is_truthy}
use kxco_post_quantum.Webhook.Envelope.{WebhookError}
use kxco_post_quantum.Webhook.Hmac.{Hmac, verify_hmac}
use kxco_post_quantum.Webhook.Pq.{PqModules, verify_pq}
use kxco_post_quantum.Webhook.Delivery.{
  Received, Receiving, Outcome, header_string, timestamp_header, signature_header,
  pq_signature_header, pq_kid_header, timestamp_in_window, check_hmac, check_pq, kid_matches,
  verify_delivery,
}

-- The HMAC half: a timestamp in the window, and a signature that is right for it.
abbrev pub HmacPassed : Hmac → ℕ → Received → Receiving → Type 0
HmacPassed hmac now_ms h d =
    (ts : Text) × (sig : Text) × (header_string (timestamp_header h) ≡ some ts)
    × (header_string (signature_header h) ≡ some sig)
    × (timestamp_in_window now_ms d.window_seconds (some ts) ≡ true)
    × (verify_hmac hmac d.hmac_secret ts d.raw_body sig ≡ ok true)

-- The signature half: the same window, the pinned key id where there is one, and a signature
-- that is right for the timestamp.
abbrev pub PqPassed : PqModules → ℕ → Received → Receiving → Type 0
PqPassed m now_ms h d =
    (ts : Text) × (sig : Text) × (public_key : Bytes) × (header_string (timestamp_header h)
      ≡ some ts)
    × (header_string (pq_signature_header h) ≡ some sig)
    × (d.pq_public_key ≡ some public_key)
    × (timestamp_in_window now_ms d.window_seconds (some ts) ≡ true)
    × (kid_matches d.pinned_kid (pq_kid_header h) ≡ true)
    × (verify_pq m public_key ts d.raw_body sig ≡ ok true)

check_hmac-true :
    (hmac : Hmac) (secret raw_body : Value) (ts sig : Option Text) (in_time : Bool)
    → check_hmac hmac secret raw_body ts sig in_time ≡ ok true
    → (t : Text) × (s : Text) × (ts ≡ some t)
      × (sig ≡ some s)
      × (in_time ≡ true)
      × (verify_hmac hmac secret t raw_body s ≡ ok true)
unfolding check_hmac
check_hmac-true hmac secret raw_body (some t) (some (c ∷ s)) true h =
    elim (Bool-cases (is_truthy secret)) [
      | inl e ↦ (t, c ∷ s, refl, refl, refl, rw e at h)
      | inr e ↦ absurd (differ (rw e at h))
    ]
  where
    differ : ◌≡◌ {A = Result WebhookError Bool} (ok false) (ok true) → ⊥
    differ p = cc
check_hmac-true hmac secret raw_body none sig in_time h = cc
check_hmac-true hmac secret raw_body (some t) none in_time h = cc
check_hmac-true hmac secret raw_body (some t) (some []) in_time h = cc
check_hmac-true hmac secret raw_body (some t) (some (c ∷ s)) false h = cc

check_pq-true :
    (m : PqModules) (key : Option Bytes) (raw_body : Value) (ts sig : Option Text) (both : Bool)
    → check_pq m key raw_body ts sig both ≡ ok true
    → (t : Text) × (s : Text) × (k : Bytes) × (ts ≡ some t)
      × (sig ≡ some s)
      × (key ≡ some k)
      × (both ≡ true)
      × (verify_pq m k t raw_body s ≡ ok true)
unfolding check_pq
check_pq-true m (some k) raw_body (some t) (some (c ∷ s)) true h =
    (t, c ∷ s, k, refl, refl, refl, refl, h)
check_pq-true m none raw_body ts sig both h = cc
check_pq-true m (some k) raw_body none sig both h = cc
check_pq-true m (some k) raw_body (some t) none both h = cc
check_pq-true m (some k) raw_body (some t) (some []) both h = cc
check_pq-true m (some k) raw_body (some t) (some (c ∷ s)) false h = cc

both_true : (a b : Bool) → (a && b) ≡ true → (a ≡ true) × (b ≡ true)
both_true true b h = (refl, h)
both_true false b h = cc

hmac_half :
    (hmac : Hmac) (now_ms : ℕ) (h : Received) (d : Receiving)
    → check_hmac hmac d.hmac_secret d.raw_body
        (header_string (timestamp_header h))
        (header_string (signature_header h))
        (timestamp_in_window now_ms d.window_seconds (header_string (timestamp_header h)))
      ≡ ok true
    → HmacPassed hmac now_ms h d
hmac_half hmac now_ms h d p =
    let (t, s, sent, signed, in_time, right) =
      check_hmac-true hmac d.hmac_secret d.raw_body _ _ _ p in
    let timed = subst (λ x. timestamp_in_window now_ms d.window_seconds x ≡ true) sent in_time in
    (t, s, sent, signed, timed, right)

pq_half :
    (m : PqModules) (now_ms : ℕ) (h : Received) (d : Receiving)
    → check_pq m d.pq_public_key d.raw_body
        (header_string (timestamp_header h))
        (header_string (pq_signature_header h))
        (timestamp_in_window now_ms d.window_seconds (header_string (timestamp_header h))
          && kid_matches d.pinned_kid (pq_kid_header h))
      ≡ ok true
    → PqPassed m now_ms h d
pq_half m now_ms h d p =
    let (t, s, k, sent, signed, keyed, both, right) =
      check_pq-true m d.pq_public_key d.raw_body _ _ _ p in
    let (in_time, kid) = both_true _ _ both in
    let timed = subst (λ x. timestamp_in_window now_ms d.window_seconds x ≡ true) sent in_time in
    (t, s, k, sent, signed, keyed, timed, kid, right)

-- A verification that returns with the HMAC half true was given a timestamp within the window and
-- an HMAC header that `verifyHmac` accepts for that timestamp and body.
pub verify_delivery-hmac_ok :
    (hmac : Hmac) (m : PqModules) (now_ms : ℕ) (h : Received) (d : Receiving) (o : Outcome)
    → verify_delivery hmac m now_ms h d ≡ ok o
    → o.hmac_ok ≡ true
    → HmacPassed hmac now_ms h d
unfolding verify_delivery
verify_delivery-hmac_ok hmac m now_ms h d o e passed =
    let (x, p, e1) = >>=-eq-ok (check_hmac hmac d.hmac_secret d.raw_body _ _ _) _ e in
    let (y, q, e2) = >>=-eq-ok (check_pq m d.pq_public_key d.raw_body _ _ _) _ e1 in
    hmac_half hmac now_ms h d
      (p ∙ ap ok (ap (λ (r : Outcome). r.hmac_ok) (ok-injective e2) ∙ passed))

-- A verification that returns with the signature half true was given a timestamp within the
-- window, a key id that matches the pin, and a signature header that `verifyPq` accepts for that
-- timestamp and body under the public key given.
pub verify_delivery-pq_ok :
    (hmac : Hmac) (m : PqModules) (now_ms : ℕ) (h : Received) (d : Receiving) (o : Outcome)
    → verify_delivery hmac m now_ms h d ≡ ok o
    → o.pq_ok ≡ true
    → PqPassed m now_ms h d
unfolding verify_delivery
verify_delivery-pq_ok hmac m now_ms h d o e passed =
    let (x, p, e1) = >>=-eq-ok (check_hmac hmac d.hmac_secret d.raw_body _ _ _) _ e in
    let (y, q, e2) = >>=-eq-ok (check_pq m d.pq_public_key d.raw_body _ _ _) _ e1 in
    pq_half m now_ms h d (q ∙ ap ok (ap (λ (r : Outcome). r.pq_ok) (ok-injective e2) ∙ passed))
