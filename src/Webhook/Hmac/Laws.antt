-- ===== src/Webhook/Hmac/Laws.antt =====
-- What `verifyHmac` of src/webhook.js accepts.
use kxco_post_quantum.Prelude.{
  ℕ, ◌≡◌, ◌⊎◌, ◌<◌, ◌/◌, refl, sym, ap, true, false, ◌==◌, Bool-cases, inl, inr, [], ◌∷◌, ◌++◌,
  if◌then◌else◌, Text, Bytes, ok, ok-injective, All, IsByte, arith, ◌↔◌,
}
use kxco_post_quantum.Value.{Value}
use kxco_post_quantum.Codec.Hex.{bytes_to_hex, hex_digit}
use kxco_post_quantum.Codec.Hex.Laws.{bytes_to_hex-cons}
use kxco_post_quantum.Codec.Equal.{bytes_equal_iff}
use kxco_post_quantum.Webhook.Envelope.{to_bytes, envelope}
use kxco_post_quantum.Webhook.Hmac.{Hmac, starts_with, sha256_prefix, hmac_hex, verify_hmac}

no_digit_is_s : (n : ℕ) → n < 16 → (b's' == hex_digit n) ≡ false
unfolding hex_digit
no_digit_is_s n h = ground arith

hex_unprefixed : (bs : Bytes) → All IsByte bs → starts_with sha256_prefix (bytes_to_hex bs) ≡ false
hex_unprefixed [] h = unfold bytes_to_hex in refl
hex_unprefixed (b ∷ bs) h =
    rw (bytes_to_hex-cons b bs h.0, no_digit_is_s (b / 16) (omega (arith, h.0))) refl

tail_eq : {c d : ℕ} {s t : Text} → ◌≡◌ {A = Text} (c ∷ s) (d ∷ t) → s ≡ t
tail_eq h = cc

without_prefix : (s t : Text) → sha256_prefix ++ s ≡ sha256_prefix ++ t → s ≡ t
without_prefix s t h = tail_eq (tail_eq (tail_eq (tail_eq (tail_eq (tail_eq (tail_eq h))))))

prefixed : (t : Text) → starts_with sha256_prefix (sha256_prefix ++ t) ≡ true
prefixed t = refl

-- The header as it is compared.
abbrev given : Text → Text
given sig = if starts_with sha256_prefix sig then sig else sha256_prefix ++ sig

given_cases :
    (hex sig : Text) → sha256_prefix ++ hex ≡ given sig → (sig ≡ sha256_prefix ++ hex) ⊎ (sig ≡ hex)
given_cases hex sig h = elim (Bool-cases (starts_with sha256_prefix sig)) [
  | inl p ↦ inl (sym (rw p at h))
  | inr p ↦ inr (without_prefix sig hex (sym (rw p at h)))
]

given_of :
    (hex sig : Text)
    → starts_with sha256_prefix hex ≡ false
    → (sig ≡ sha256_prefix ++ hex) ⊎ (sig ≡ hex)
    → sha256_prefix ++ hex ≡ given sig
given_of hex sig plain (inl e) = rw e refl
given_of hex sig plain (inr e) = rw (e, plain) refl

-- For a digest of bytes, the header is accepted if and only if it is the hex of the digest with
-- `sha256=` before it, or that hex alone.
pub verify_hmac_iff :
    (hmac : Hmac) (secret raw_body : Value) (ts sig_header : Text) (key env : Bytes)
    → envelope ts raw_body ≡ ok env
    → to_bytes secret ≡ ok key
    → All IsByte (hmac key env)
    → (verify_hmac hmac secret ts raw_body sig_header ≡ ok true) ↔ (
        (sig_header ≡ sha256_prefix ++ bytes_to_hex (hmac key env))
        ⊎ (sig_header ≡ bytes_to_hex (hmac key env)))
unfolding verify_hmac hmac_hex
verify_hmac_iff hmac secret raw_body ts sig_header key env e k digest =
    let hex = bytes_to_hex (hmac key env) in
    rw (e, k)
      (
        λ h. given_cases hex sig_header ((bytes_equal_iff _ _).0 (ok-injective h)),
        λ h. ap ok ((bytes_equal_iff _ _).1 (given_of hex sig_header (hex_unprefixed _ digest) h)),
      )
