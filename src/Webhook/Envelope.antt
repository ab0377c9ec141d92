-- ===== src/Webhook/Envelope.antt =====
-- `envelope` of src/webhook.js, and why it can be taken apart in one way only.
use kxco_post_quantum.Prelude.{
  ℕ, ◌≤◌, ◌≡◌, refl, sym, ap, ◌∙◌, Bool, true, false, ◌&&◌, [], ◌∷◌, ◌++◌, arith, leb, all, All,
  Text, Bytes, Result, ok, err, ◌>>=◌, >>=-eq-ok, ok-injective,
}
use mathlib.Core.List.{append_assoc}
use mathlib.Core.Path.{ap₂}
use kxco_post_quantum.Value.{Value, u8, text}
use kxco_post_quantum.Codec.Utf8.{utf8, utf8_ascii, IsAscii}

pub data WebhookError : Type 0 where
  expected_bytes_or_string signing_failed : WebhookError

-- `toBytes`
unfoldable pub to_bytes : Value → Result WebhookError Bytes
to_bytes (u8 bs) = ok bs
to_bytes (text s) = ok (utf8 s)
to_bytes _ = err expected_bytes_or_string

unfoldable pub envelope : Text → Value → Result WebhookError Bytes
envelope timestamp raw_body = do
  body_bytes ← to_bytes raw_body
  let prefix_bytes = utf8 (timestamp ++ b'.' ∷ [])
  ok (prefix_bytes ++ body_bytes)

abbrev pub is_digit : ℕ → Bool
is_digit c = leb b'0' c && leb c b'9'

-- `/^[0-9]+$/`
abbrev pub is_decimal : Text → Bool
is_decimal [] = false
is_decimal (c ∷ s) = all is_digit (c ∷ s)

abbrev IsDigit : ℕ → Type 0
IsDigit c = (48 ≤ c) × (c ≤ 57)

digits_of : (s : Text) → all is_digit s ≡ true → All IsDigit s
digits_of [] h = tt
digits_of (c ∷ s) h = ground (arith, digits_of s)

decimal_digits : (s : Text) → is_decimal s ≡ true → All IsDigit s
decimal_digits [] h = cc
decimal_digits (c ∷ s) h = digits_of (c ∷ s) h

dotted-IsAscii : (s : Text) → All IsDigit s → All IsAscii (s ++ b'.' ∷ [])
dotted-IsAscii [] h = omega arith
dotted-IsAscii (c ∷ s) (hc, hs) = (omega arith, dotted-IsAscii s hs)

-- Digits up to a dot are read off in one way.
split_at_dot :
    (s t : Text) (b c : Bytes)
    → All IsDigit s
    → All IsDigit t
    → s ++ b'.' ∷ b ≡ t ++ b'.' ∷ c
    → (s ≡ t) × (b ≡ c)
split_at_dot [] [] b c hs ht e = (refl, cc)
split_at_dot [] (d ∷ t) b c hs ht e = absurd (different (ht.0) (heads e))
  where
    heads : b'.' ∷ b ≡ d ∷ (t ++ b'.' ∷ c) → b'.' ≡ d
    heads p = cc

    different : IsDigit d → ¬ (b'.' ≡ d)
    different h p = omega arith
split_at_dot (d ∷ s) [] b c hs ht e = absurd (different (hs.0) (heads e))
  where
    heads : d ∷ (s ++ b'.' ∷ b) ≡ b'.' ∷ c → d ≡ b'.'
    heads p = cc

    different : IsDigit d → ¬ (d ≡ b'.')
    different h p = omega arith
split_at_dot (d ∷ s) (d' ∷ t) b c hs ht e =
    let (same, rest) = split_at_dot s t b c hs.1 ht.1 (tails e) in (ap₂ ◌∷◌ (heads e) same, rest)
  where
    tails : d ∷ (s ++ b'.' ∷ b) ≡ d' ∷ (t ++ b'.' ∷ c) → s ++ b'.' ∷ b ≡ t ++ b'.' ∷ c
    tails p = cc

    heads : d ∷ (s ++ b'.' ∷ b) ≡ d' ∷ (t ++ b'.' ∷ c) → d ≡ d'
    heads p = cc

pub envelope_decimal :
    (ts : Text) (raw_body : Value) (body : Bytes)
    → is_decimal ts ≡ true
    → to_bytes raw_body ≡ ok body
    → envelope ts raw_body ≡ ok (ts ++ b'.' ∷ body)
unfolding envelope
envelope_decimal ts raw_body body h e =
    rw (e, utf8_ascii (ts ++ b'.' ∷ []) (dotted-IsAscii ts (decimal_digits ts h)))
      (ap ok (append_assoc ts (b'.' ∷ []) body))

envelope-eq-ok :
    (ts : Text) (raw_body : Value) (e : Bytes)
    → envelope ts raw_body ≡ ok e
    → (body : Bytes) × (to_bytes raw_body ≡ ok body)
unfolding envelope
envelope-eq-ok ts raw_body e p =
    let (body, read, _) = >>=-eq-ok (to_bytes raw_body) _ p in (body, read)

-- Two deliveries whose timestamps are decimal digits have the same envelope only if they have
-- the same timestamp and the same body bytes: no part of a body can move into the timestamp.
pub envelope_injective :
    (ts ts' : Text) (raw_body raw_body' : Value) (e : Bytes)
    → is_decimal ts ≡ true
    → is_decimal ts' ≡ true
    → envelope ts raw_body ≡ ok e
    → envelope ts' raw_body' ≡ ok e
    → (ts ≡ ts') × (to_bytes raw_body ≡ to_bytes raw_body')
envelope_injective ts ts' raw_body raw_body' e h h' p p' =
    let (body, read) = envelope-eq-ok ts raw_body e p in
    let (body', read') = envelope-eq-ok ts' raw_body' e p' in
    let same = ok-injective (
      sym (envelope_decimal ts raw_body body h read)
      ∙ p
      ∙ sym p'
      ∙ envelope_decimal ts' raw_body' body' h' read') in
    let (same_ts, same_body) =
      split_at_dot ts ts' body body' (decimal_digits ts h) (decimal_digits ts' h') same in
    (same_ts, read ∙ ap ok same_body ∙ sym read')
