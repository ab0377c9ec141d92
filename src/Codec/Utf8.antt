-- ===== src/Codec/Utf8.antt =====
-- `TextEncoder.encode`: UTF-8 of the UTF-16 code units of a string. A surrogate without its
-- partner is written as U+FFFD.
pub mod Decode
use kxco_post_quantum.Prelude.{
  ℕ, ◌+◌, ◌-◌, ◌*◌, ◌/◌, ◌%◌, ◌<◌, ◌≡◌, refl, Bool, ◌&&◌, [], ◌∷◌, ◌++◌, Option, none, some, arith,
  ltb, leb, if◌then◌else◌, All, Text, Bytes,
}

abbrev pub is_high : ℕ → Bool
is_high u = leb 0xd800 u && leb u 0xdbff

abbrev pub is_low : ℕ → Bool
is_low u = leb 0xdc00 u && leb u 0xdfff

abbrev replacement : Bytes
replacement = 0xef ∷ 0xbf ∷ 0xbd ∷ []

unfoldable pub unit_bytes : ℕ → Bytes
unit_bytes u =
    if ltb u 0x80
    then u ∷ []
    else if ltb u 0x800
    then (0xc0 + u / 64) ∷ (0x80 + u % 64) ∷ []
    else (0xe0 + u / 4096) ∷ (0x80 + u / 64 % 64) ∷ (0x80 + u % 64) ∷ []

unfoldable pub pair_bytes : ℕ → ℕ → Bytes
pair_bytes high low =
    let c = 0x10000 + (high - 0xd800) * 0x400 + (low - 0xdc00) in
    (0xf0 + c / 262144) ∷ (0x80 + c / 4096 % 64) ∷ (0x80 + c / 64 % 64) ∷ (0x80 + c % 64) ∷ []

-- A code unit that no high surrogate waits for: what is written, and the surrogate kept back.
unfoldable pub fresh : ℕ → Bytes × Option ℕ
unfolding unit_bytes
fresh u = if is_high u then ([], some u) else (if is_low u then replacement else unit_bytes u, none)

unfoldable pub step : Option ℕ → ℕ → Bytes × Option ℕ
unfolding fresh pair_bytes
step none u = fresh u
step (some h) u =
    if is_low u then (pair_bytes h u, none) else (replacement ++ (fresh u).0, (fresh u).1)

unfoldable pub encode_from : Option ℕ → Text → Bytes
unfolding step
encode_from none [] = []
encode_from (some h) [] = replacement
encode_from pending (u ∷ s) = let (out, pending') = step pending u in out ++ encode_from pending' s

unfoldable pub utf8 : Text → Bytes
unfolding encode_from
utf8 s = encode_from none s

abbrev pub IsAscii : ℕ → Type 0
IsAscii c = c < 128

-- ASCII is written as it is, whatever follows it.
pub utf8-append_ascii : (s t : Text) → All IsAscii s → utf8 (s ++ t) ≡ s ++ utf8 t
unfolding utf8
utf8-append_ascii [] t h = refl
utf8-append_ascii (c ∷ s) t (hc, hs) = ground (arith, utf8-append_ascii s t hs)

pub utf8_ascii : (s : Text) → All IsAscii s → utf8 s ≡ s
unfolding utf8
utf8_ascii [] h = refl
utf8_ascii (c ∷ s) (hc, hs) = ground (arith, utf8_ascii s hs)

-- U+1F511 and a lone surrogate.
utf8_key :
    utf8 (0xd83d ∷ 0xdd11 ∷ 0xd83d ∷ b'a' ∷ [])
    ≡ 0xf0 ∷ 0x9f ∷ 0x94 ∷ 0x91 ∷ 0xef ∷ 0xbf ∷ 0xbd ∷ b'a' ∷ []
unfolding utf8
utf8_key = refl
