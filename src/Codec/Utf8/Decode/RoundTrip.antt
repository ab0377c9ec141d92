-- ===== src/Codec/Utf8/Decode/RoundTrip.antt =====
-- Well-formed text survives `TextEncoder` and `TextDecoder`.
use kxco_post_quantum.Prelude.{
  ℕ, ◌+◌, ◌/◌, ◌%◌, ◌<◌, ◌≤◌, ◌≡◌, ◌⊎◌, refl, sym, ap, ◌∙◌, lt→ltb, true, false, [], ◌∷◌, ◌++◌,
  none, arith, ltb, All, All-append, Text, Bytes, IsByte, Bool-cases, inl, inr,
}
use kxco_post_quantum.Codec.Utf8.{
  is_high, is_low, unit_bytes, pair_bytes, fresh, step, encode_from, utf8,
}
use kxco_post_quantum.Codec.Utf8.Decode.{
  decode_first, decode_step, decode_from, drop_bom, text_decode,
}

abbrev pub IsHigh : ℕ → Type 0
IsHigh u = (0xd800 ≤ u) × (u ≤ 0xdbff)

abbrev pub IsLow : ℕ → Type 0
IsLow u = (0xdc00 ≤ u) × (u ≤ 0xdfff)

-- A code unit that is no surrogate.
abbrev pub IsScalar : ℕ → Type 0
IsScalar u = (u < 0x10000) × ((u < 0xd800) ⊎ (0xdfff < u))

-- Text in which each surrogate has its partner.
pub data WellFormed : Text → Type 0 where
  empty : WellFormed []
  unit : (u : ℕ) (s : Text) → IsScalar u → WellFormed s → WellFormed (u ∷ s)
  pair : (h l : ℕ) (s : Text) → IsHigh h → IsLow l → WellFormed s → WellFormed (h ∷ l ∷ s)

pub WellFormed-append : {s t : Text} → WellFormed s → WellFormed t → WellFormed (s ++ t)
WellFormed-append empty w = w
WellFormed-append (unit u s h v) w = unit u (s ++ _) h (WellFormed-append v w)
WellFormed-append (pair x y s h l v) w = pair x y (s ++ _) h l (WellFormed-append v w)

pub not_high : (u : ℕ) → IsScalar u → is_high u ≡ false
not_high u h = ground arith

pub not_low : (u : ℕ) → IsScalar u → is_low u ≡ false
not_low u h = ground arith

decode-one : (u : ℕ) (bs : Bytes) → u < 0x80 → decode_from none (u ∷ bs) ≡ u ∷ decode_from none bs
unfolding decode_from decode_step decode_first
decode-one u bs h = ground arith

decode-two :
    (u : ℕ) (bs : Bytes)
    → 0x80 ≤ u
    → u < 0x800
    → decode_from none ((0xc0 + u / 64) ∷ (0x80 + u % 64) ∷ bs) ≡ u ∷ decode_from none bs
unfolding decode_from decode_step decode_first
decode-two u bs low high = ground arith

decode-three :
    (u : ℕ) (bs : Bytes)
    → 0x800 ≤ u
    → IsScalar u
    → decode_from none ((0xe0 + u / 4096) ∷ (0x80 + u / 64 % 64) ∷ (0x80 + u % 64) ∷ bs)
      ≡ u ∷ decode_from none bs
unfolding decode_from decode_step decode_first
decode-three u bs low h = ground arith

decode-pair :
    (h l : ℕ) (bs : Bytes)
    → IsHigh h
    → IsLow l
    → decode_from none (pair_bytes h l ++ bs) ≡ h ∷ l ∷ decode_from none bs
unfolding decode_from decode_step decode_first pair_bytes
decode-pair h l bs high low = ground arith

decode-unit :
    (u : ℕ) (bs : Bytes)
    → IsScalar u
    → decode_from none (unit_bytes u ++ bs) ≡ u ∷ decode_from none bs
unfolding unit_bytes
decode-unit u bs h = elim (Bool-cases (ltb u 0x80)) [
  | inl e ↦ rw e (decode-one u bs (ground arith))
  | inr e ↦ elim (Bool-cases (ltb u 0x800)) [
    | inl e' ↦ rw (e, e') (decode-two u bs (ground arith) (ground arith))
    | inr e' ↦ rw (e, e') (decode-three u bs (ground arith) h)
  ]
]

encode-unit :
    (u : ℕ) (s : Text) → IsScalar u → encode_from none (u ∷ s) ≡ unit_bytes u ++ encode_from none s
unfolding encode_from step fresh
encode-unit u s h = rw (not_high u h, not_low u h) refl

encode-pair :
    (h l : ℕ) (s : Text)
    → IsHigh h
    → IsLow l
    → encode_from none (h ∷ l ∷ s) ≡ pair_bytes h l ++ encode_from none s
unfolding encode_from step fresh
encode-pair h l s high low = rw (is_high-high, is_low-low) refl
  where
    is_high-high : is_high h ≡ true
    is_high-high = ground arith

    is_low-low : is_low l ≡ true
    is_low-low = ground arith

decode_from-encode_from : {s : Text} → WellFormed s → decode_from none (encode_from none s) ≡ s
decode_from-encode_from empty = unfold decode_from encode_from in refl
decode_from-encode_from (unit u s h w) =
    ap (decode_from none) (encode-unit u s h)
    ∙ decode-unit u (encode_from none s) h
    ∙ ap (λ t. u ∷ t) (decode_from-encode_from w)
decode_from-encode_from (pair h l s high low w) =
    ap (decode_from none) (encode-pair h l s high low)
    ∙ decode-pair h l (encode_from none s) high low
    ∙ ap (λ t. h ∷ l ∷ t) (decode_from-encode_from w)

pub decode_from-utf8 : (s : Text) → WellFormed s → decode_from none (utf8 s) ≡ s
unfolding utf8
decode_from-utf8 s w = decode_from-encode_from w

drop_bom-ascii : (c : ℕ) (bs : Bytes) → c < 0x80 → drop_bom (c ∷ bs) ≡ c ∷ bs
drop_bom-ascii c [] h = refl
drop_bom-ascii c (a ∷ []) h = refl
drop_bom-ascii c (a ∷ b ∷ bs) h = ground arith

encode-ascii : (c : ℕ) (s : Text) → c < 0x80 → encode_from none (c ∷ s) ≡ c ∷ encode_from none s
unfolding unit_bytes
encode-ascii c s h = encode-unit c s (omega arith, inl (omega arith)) ∙ rw (lt→ltb c 0x80 h) refl

-- Text in which each surrogate has its partner, and which starts with an ASCII character (so with
-- no byte order mark), is decoded to itself from its UTF-8.
pub text_decode-utf8 :
    (c : ℕ) (s : Text) → c < 0x80 → WellFormed (c ∷ s) → text_decode (utf8 (c ∷ s)) ≡ c ∷ s
unfolding text_decode utf8
text_decode-utf8 c s h w =
    ap (λ bs. decode_from none (drop_bom bs)) (encode-ascii c s h)
    ∙ ap (decode_from none) (drop_bom-ascii c (encode_from none s) h ∙ sym (encode-ascii c s h))
    ∙ decode_from-encode_from w

unit_bytes-IsByte : (u : ℕ) → IsScalar u → All IsByte (unit_bytes u)
unfolding unit_bytes
unit_bytes-IsByte u h = elim (Bool-cases (ltb u 0x80)) [
  | inl e ↦ rw e (ground arith)
  | inr e ↦ elim (Bool-cases (ltb u 0x800)) [
    | inl e' ↦ rw (e, e') (ground arith)
    | inr e' ↦ rw (e, e') (ground arith)
  ]
]

pair_bytes-IsByte : (h l : ℕ) → IsHigh h → IsLow l → All IsByte (pair_bytes h l)
unfolding pair_bytes
pair_bytes-IsByte h l high low = (omega arith, (omega arith, (omega arith, (omega arith, tt))))

pub utf8-IsByte : {s : Text} → WellFormed s → All IsByte (utf8 s)
unfolding utf8
utf8-IsByte empty = unfold encode_from in tt
utf8-IsByte (unit u s h w) =
    rw (encode-unit u s h)
      (All-append IsByte (unit_bytes u) _ (unit_bytes-IsByte u h) (utf8-IsByte w))
utf8-IsByte (pair h l s high low w) =
    rw (encode-pair h l s high low)
      (All-append IsByte (pair_bytes h l) _ (pair_bytes-IsByte h l high low) (utf8-IsByte w))
