-- ===== src/Codec/Utf8/Decode.antt =====
-- `TextDecoder.decode`: the UTF-8 decoder of the WHATWG encoding standard, not fatal, which drops
-- one byte order mark. Ill-formed input gives U+FFFD, and the byte that broke a sequence is read
-- again as the start of the next.
pub mod RoundTrip
pub mod Units
use kxco_post_quantum.Prelude.{
  ℕ, zero, suc, ◌≡◌, refl, ◌+◌, ◌-◌, ◌*◌, ◌/◌, ◌%◌, Bool, ◌&&◌, List, [], ◌∷◌, ◌++◌, Option, none,
  some, ltb, leb, ◌==◌, if◌then◌else◌, Text, Bytes,
}

-- A sequence that is not at its end: the bytes wanted after the next one, the bits so far, and
-- the range of the next byte.
pub record Waiting : Type 0 where
  pub more : ℕ
  pub point : ℕ
  pub lower : ℕ
  pub upper : ℕ

-- The UTF-16 code units of a code point.
abbrev pub units : ℕ → Text
units c =
    if ltb c 0x10000
    then c ∷ []
    else (0xd800 + (c - 0x10000) / 0x400) ∷ (0xdc00 + (c - 0x10000) % 0x400) ∷ []

abbrev wait : (more point lower upper : ℕ) → Option Waiting
wait more point lower upper =
    some (record { more = more; point = point; lower = lower; upper = upper })

-- A byte at the start of a sequence.
unfoldable pub decode_first : ℕ → Text × Option Waiting
decode_first b =
    if ltb b 0x80
    then (b ∷ [], none)
    else if leb 0xc2 b && leb b 0xdf
    then ([], wait 0 (b - 0xc0) 0x80 0xbf)
    else if leb 0xe0 b && leb b 0xef
    then (
      [],
      wait 1 (b - 0xe0) (if b == 0xe0 then 0xa0 else 0x80) (if b == 0xed then 0x9f else 0xbf),
    )
    else if leb 0xf0 b && leb b 0xf4
    then (
      [],
      wait 2 (b - 0xf0) (if b == 0xf0 then 0x90 else 0x80) (if b == 0xf4 then 0x8f else 0xbf),
    )
    else (0xfffd ∷ [], none)

-- A byte that continues the sequence.
abbrev pub decode_next : ℕ → ℕ → Text × Option Waiting
decode_next zero point = (units point, none)
decode_next (suc more) point = ([], wait more point 0x80 0xbf)

unfoldable pub decode_step : Option Waiting → ℕ → Text × Option Waiting
unfolding decode_first
decode_step none b = decode_first b
decode_step (some w) b =
    if leb w.lower b && leb b w.upper
    then decode_next w.more (w.point * 64 + b % 64)
    else (0xfffd ∷ (decode_first b).0, (decode_first b).1)

unfoldable pub decode_from : Option Waiting → Bytes → Text
unfolding decode_step
decode_from none [] = []
decode_from (some w) [] = 0xfffd ∷ []
decode_from p (b ∷ bs) = let (out, p') = decode_step p b in out ++ decode_from p' bs

abbrev drop_bom : Bytes → Bytes
drop_bom (a ∷ b ∷ c ∷ bs) = if a == 0xef && b == 0xbb && c == 0xbf then bs else a ∷ b ∷ c ∷ bs
drop_bom bs = bs

unfoldable pub text_decode : Bytes → Text
unfolding decode_from
text_decode bs = decode_from none (drop_bom bs)
