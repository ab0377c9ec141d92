-- ===== src/Json/Quote/WellFormed.antt =====
-- What `JSON.stringify` writes for a string has each surrogate beside its partner: the others are
-- escaped.
use kxco_post_quantum.Prelude.{
  ℕ, ◌/◌, ◌%◌, ◌<◌, ◌≡◌, true, false, Bool-cases, Option-cases, inl, inr, [], ◌∷◌, ◌++◌, Option,
  none, some, arith, ltb, ltb→lt, All, Text,
}
use mathlib.Core.List.{append_assoc}
use kxco_post_quantum.Codec.Hex.{hex_digit}
use kxco_post_quantum.Codec.Utf8.{is_high, is_low, IsAscii}
use kxco_post_quantum.Codec.Utf8.Decode.RoundTrip.{
  IsHigh, IsLow, IsScalar, WellFormed, empty, unit, pair, WellFormed-append,
}
use kxco_post_quantum.Json.Quote.{
  unicode_escape, short_letter, quote_unit, quote_first, quote_step, quote_from,
}
use kxco_post_quantum.Json.Quote.Laws.{IsUnit, IsPending}

pub ascii-WellFormed : (s : Text) → All IsAscii s → WellFormed s
ascii-WellFormed [] h = empty
ascii-WellFormed (c ∷ s) (hc, hs) =
    unit c s (omega arith, inl (omega arith)) (ascii-WellFormed s hs)

hex_digit-IsAscii : (d : ℕ) → d < 16 → IsAscii (hex_digit d)
unfolding hex_digit
hex_digit-IsAscii d h = ground arith

unicode_escape-WellFormed : (u : ℕ) → IsUnit u → WellFormed (unicode_escape u)
unfolding unicode_escape
unicode_escape-WellFormed u h = ascii-WellFormed _ (
  omega arith,
  (
    omega arith,
    (
      hex_digit-IsAscii (u / 4096) (omega arith),
      (
        hex_digit-IsAscii (u / 256 % 16) (omega arith),
        (
          hex_digit-IsAscii (u / 16 % 16) (omega arith),
          (hex_digit-IsAscii (u % 16) (omega arith), tt),
        ),
      ),
    ),
  ),
)

short_letter-IsAscii : (u c : ℕ) → short_letter u ≡ some c → IsAscii c
unfolding short_letter
short_letter-IsAscii u c h = ground arith

quote_unit-WellFormed : (u : ℕ) → IsScalar u → WellFormed (quote_unit u)
unfolding quote_unit
quote_unit-WellFormed u h = elim (Option-cases (short_letter u)) [
  | inr (c, e) ↦ rw e (ascii-WellFormed _ (omega arith, (short_letter-IsAscii u c e, tt)))
  | inl e ↦ elim (Bool-cases (ltb u 32)) [
    | inl k ↦ rw (e, k) (unicode_escape-WellFormed u h.0)
    | inr k ↦ rw (e, k) (unit u [] h empty)
  ]
]

quote_first-WellFormed :
    (u : ℕ) (s : Text)
    → IsUnit u
    → ((p : Option ℕ) → IsPending p → WellFormed (quote_from p s))
    → WellFormed ((quote_first u).0 ++ quote_from (quote_first u).1 s)
unfolding quote_first
quote_first-WellFormed u s h later = elim (Bool-cases (is_high u)) [
  | inl e ↦ rw e (later (some u) (high_of u e))
  | inr e ↦ elim (Bool-cases (is_low u)) [
    | inl k ↦ rw (e, k) (WellFormed-append (unicode_escape-WellFormed u h) (later none tt))
    | inr k ↦
        rw (e, k) (WellFormed-append (quote_unit-WellFormed u (scalar u h e k)) (later none tt))
  ]
]
  where
    high_of : (v : ℕ) → is_high v ≡ true → IsHigh v
    high_of v e = ground arith

    scalar : (v : ℕ) → IsUnit v → is_high v ≡ false → is_low v ≡ false → IsScalar v
    scalar v h e k = elim (Bool-cases (ltb v 0xd800)) [
      | inl below ↦ (h, inl (ltb→lt v 0xd800 below))
      | inr above ↦ (h, inr (ground arith))
    ]

pub quote_from-WellFormed :
    (p : Option ℕ) (s : Text) → IsPending p → All IsUnit s → WellFormed (quote_from p s)
unfolding quote_from quote_step
quote_from-WellFormed none [] hp hs = empty
quote_from-WellFormed (some h) [] hp hs = unicode_escape-WellFormed h (omega arith)
quote_from-WellFormed none (u ∷ s) hp (hu, hs) =
    quote_first-WellFormed u s hu (λ p h. quote_from-WellFormed p s h hs)
quote_from-WellFormed (some h) (u ∷ s) hp (hu, hs) =
    let later = quote_from-WellFormed none s tt hs in
    let first = quote_first-WellFormed u s hu (λ p k. quote_from-WellFormed p s k hs) in
    elim (Bool-cases (is_low u)) [
      | inl e ↦ rw e (pair h u _ hp (low_of u e) later)
      | inr e ↦
          rw (e, append_assoc (unicode_escape h) (quote_first u).0 (quote_from (quote_first u).1 s))
            (WellFormed-append (unicode_escape-WellFormed h (omega arith)) first)
    ]
  where
    low_of : (v : ℕ) → is_low v ≡ true → IsLow v
    low_of v e = ground arith
