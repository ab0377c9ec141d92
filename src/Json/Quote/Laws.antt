-- ===== src/Json/Quote/Laws.antt =====
-- A string that `JSON.stringify` wrote is read back by `JSON.parse`, and is well-formed text.
use kxco_post_quantum.Prelude.{
  ℕ, ◌+◌, ◌*◌, ◌/◌, ◌%◌, ◌<◌, ◌≤◌, ◌≡◌, refl, ap, ◌∙◌, true, false, Bool-cases, Option-cases, inl,
  inr, [], ◌∷◌, ◌++◌, Option, none, some, arith, ltb, All, Text, ok,
}
use mathlib.Core.List.{append_assoc}
use kxco_post_quantum.Codec.Hex.{hex_digit, is_hex, hex_value}
use kxco_post_quantum.Codec.Utf8.{is_high, is_low}
use kxco_post_quantum.Codec.Utf8.Decode.RoundTrip.{IsHigh}
use kxco_post_quantum.Json.Quote.{
  unicode_escape, short_letter, quote_unit, quote_first, quote_step, quote_from,
}
use kxco_post_quantum.Json.Scan.{
  finish, plain, escaped, digits, go, emit, read_digit, string_step, string_loop, prepend,
}

abbrev pub IsUnit : ℕ → Type 0
IsUnit u = u < 0x10000

digit_step :
    (left value d : ℕ)
    → d < 16
    → string_step (digits left value) (hex_digit d) ≡ read_digit left (value * 16 + d)
unfolding string_step is_hex hex_value hex_digit
digit_step left value d h = ground arith

backslash_step : string_step plain b'\\' ≡ go escaped
unfolding string_step
backslash_step = refl

u_step : string_step escaped b'u' ≡ go (digits 3 0)
unfolding string_step
u_step = refl

four_digits :
    (u : ℕ) → (((0 * 16 + u / 4096) * 16 + u / 256 % 16) * 16 + u / 16 % 16) * 16 + u % 16 ≡ u
four_digits u = omega arith

read_unicode_escape :
    (u : ℕ) (t : Text)
    → IsUnit u
    → string_loop plain (unicode_escape u ++ t) ≡ prepend u (string_loop plain t)
unfolding string_loop unicode_escape
read_unicode_escape u t h =
    rw
      (
        backslash_step,
        u_step,
        digit_step 3 0 (u / 4096) (omega arith),
        digit_step 2 (0 * 16 + u / 4096) (u / 256 % 16) (omega arith),
        digit_step 1 ((0 * 16 + u / 4096) * 16 + u / 256 % 16) (u / 16 % 16) (omega arith),
        digit_step 0 (((0 * 16 + u / 4096) * 16 + u / 256 % 16) * 16 + u / 16 % 16) (u % 16)
            (omega arith),
        four_digits u,
      )
      refl

short_step : (u c : ℕ) → short_letter u ≡ some c → string_step escaped c ≡ emit u
unfolding short_letter string_step
short_step u c h = ground arith

plain_step : (u : ℕ) → short_letter u ≡ none → ltb u 32 ≡ false → string_step plain u ≡ emit u
unfolding short_letter string_step
plain_step u h k = ground arith

read_unit :
    (u : ℕ) (t : Text)
    → IsUnit u
    → string_loop plain (quote_unit u ++ t) ≡ prepend u (string_loop plain t)
unfolding string_loop quote_unit
read_unit u t h = elim (Option-cases (short_letter u)) [
  | inr (c, e) ↦ rw (e, backslash_step, short_step u c e) refl
  | inl e ↦ elim (Bool-cases (ltb u 32)) [
    | inl k ↦ rw (e, k) (read_unicode_escape u t h)
    | inr k ↦ rw (e, k, plain_step u e k) refl
  ]
]

read_surrogate :
    (u : ℕ) (t : Text) → 0xd800 ≤ u → string_loop plain (u ∷ t) ≡ prepend u (string_loop plain t)
unfolding string_loop
read_surrogate u t h = rw (stepped u h) refl
  where
    stepped : (v : ℕ) → 0xd800 ≤ v → string_step plain v ≡ emit v
    stepped v k = unfold string_step in ground arith

end_step : string_step plain b'"' ≡ finish
unfolding string_step
end_step = refl

read_end : (rest : Text) → string_loop plain (b'"' ∷ rest) ≡ ok ([], rest)
unfolding string_loop
read_end rest = rw end_step refl

abbrev pub IsPending : Option ℕ → Type 0
IsPending none = Unit {0}
IsPending (some h) = IsHigh h

abbrev pending : Option ℕ → Text
pending none = []
pending (some h) = h ∷ []

abbrev ReadsBack : Option ℕ → Text → Text → Type 0
ReadsBack p s rest = string_loop plain (quote_from p s ++ b'"' ∷ rest) ≡ ok (pending p ++ s, rest)

read_first :
    (u : ℕ) (s rest : Text)
    → IsUnit u
    → ((p : Option ℕ) → IsPending p → ReadsBack p s rest)
    → string_loop plain (((quote_first u).0 ++ quote_from (quote_first u).1 s) ++ b'"' ∷ rest)
      ≡ ok (u ∷ s, rest)
unfolding quote_first
read_first u s rest h later = elim (Bool-cases (is_high u)) [
  | inl e ↦ rw e (later (some u) (high_of u e))
  | inr e ↦ elim (Bool-cases (is_low u)) [
    | inl k ↦
        rw (e, k)
          (ap (string_loop plain)
              (append_assoc (unicode_escape u) (quote_from none s) (b'"' ∷ rest))
            ∙ read_unicode_escape u (quote_from none s ++ b'"' ∷ rest) h
            ∙ ap (prepend u) (later none tt))
    | inr k ↦
        rw (e, k)
          (ap (string_loop plain) (append_assoc (quote_unit u) (quote_from none s) (b'"' ∷ rest))
            ∙ read_unit u (quote_from none s ++ b'"' ∷ rest) h
            ∙ ap (prepend u) (later none tt))
  ]
]
  where
    high_of : (v : ℕ) → is_high v ≡ true → IsHigh v
    high_of v e = ground arith

read_quote_from : (p : Option ℕ) (s rest : Text) → IsPending p → All IsUnit s → ReadsBack p s rest
unfolding quote_from quote_step
read_quote_from none [] rest hp hs = read_end rest
read_quote_from (some h) [] rest hp hs =
    read_unicode_escape h (b'"' ∷ rest) (omega arith) ∙ ap (prepend h) (read_end rest)
read_quote_from none (u ∷ s) rest hp (hu, hs) =
    read_first u s rest hu (λ p h. read_quote_from p s rest h hs)
read_quote_from (some h) (u ∷ s) rest hp (hu, hs) =
    let later = read_quote_from none s rest tt hs in
    let first = read_first u s rest hu (λ p k. read_quote_from p s rest k hs) in
    elim (Bool-cases (is_low u)) [
      | inl e ↦ rw e (both (low_of u e) later)
      | inr e ↦ rw e (
          ap (λ x. string_loop plain (x ++ b'"' ∷ rest))
            (append_assoc (unicode_escape h) (quote_first u).0 (quote_from (quote_first u).1 s))
          ∙ ap (string_loop plain) (
              append_assoc (unicode_escape h) ((quote_first u).0 ++ quote_from (quote_first u).1 s)
                (b'"' ∷ rest))
          ∙ read_unicode_escape h
              (((quote_first u).0 ++ quote_from (quote_first u).1 s) ++ b'"' ∷ rest) (omega arith)
          ∙ ap (prepend h) first)
    ]
  where
    low_of : (v : ℕ) → is_low v ≡ true → 0xd800 ≤ v
    low_of v e = ground arith

    both :
        0xd800 ≤ u
        → ReadsBack none s rest
        → string_loop plain (h ∷ u ∷ (quote_from none s ++ b'"' ∷ rest)) ≡ ok (h ∷ u ∷ s, rest)
    both low later =
        read_surrogate h _ (omega arith)
        ∙ ap (prepend h) (read_surrogate u _ low ∙ ap (prepend u) later)

-- A string reads back from what is written for it, whatever follows.
pub string_loop-quote_from :
    (s rest : Text)
    → All IsUnit s
    → string_loop plain (quote_from none s ++ b'"' ∷ rest) ≡ ok (s, rest)
string_loop-quote_from s rest h = read_quote_from none s rest tt h
