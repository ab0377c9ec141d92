-- ===== src/Json/Quote.antt =====
-- A string as `JSON.stringify` writes it, without the quotation marks round it.
pub mod Laws
pub mod WellFormed
use kxco_post_quantum.Prelude.{
  ℕ, ◌+◌, ◌-◌, ◌*◌, ◌/◌, ◌%◌, Bool, ◌&&◌, List, [], ◌∷◌, ◌++◌, Option, none, some, ltb, leb, ◌==◌,
  if◌then◌else◌, Text,
}
use kxco_post_quantum.Codec.Hex.{hex_digit}
use kxco_post_quantum.Codec.Utf8.{is_high, is_low}

-- `\uXXXX`
unfoldable pub unicode_escape : ℕ → Text
unicode_escape u =
    b'\\'
    ∷ b'u'
    ∷ hex_digit (u / 4096)
    ∷ hex_digit (u / 256 % 16)
    ∷ hex_digit (u / 16 % 16)
    ∷ hex_digit (u % 16)
    ∷ []

-- The letter behind the backslash, for the units that have a short escape.
unfoldable pub short_letter : ℕ → Option ℕ
short_letter u =
    if u == b'"'
    then some b'"'
    else if u == b'\\'
    then some b'\\'
    else if u == 8
    then some b'b'
    else if u == 9
    then some b't'
    else if u == 10
    then some b'n'
    else if u == 12
    then some b'f'
    else if u == 13
    then some b'r'
    else none

abbrev pub quote_by : Option ℕ → ℕ → Text
quote_by (some c) u = b'\\' ∷ c ∷ []
quote_by none u = if ltb u 32 then unicode_escape u else u ∷ []

-- A code unit that is no surrogate.
unfoldable pub quote_unit : ℕ → Text
quote_unit u = quote_by (short_letter u) u

-- A code unit that no high surrogate waits for; a surrogate without its partner is escaped.
unfoldable pub quote_first : ℕ → Text × Option ℕ
quote_first u =
    if is_high u then ([], some u) else (if is_low u then unicode_escape u else quote_unit u, none)

unfoldable pub quote_step : Option ℕ → ℕ → Text × Option ℕ
quote_step none u = quote_first u
quote_step (some h) u =
    if is_low u
    then (h ∷ u ∷ [], none)
    else (unicode_escape h ++ (quote_first u).0, (quote_first u).1)

unfoldable pub quote_from : Option ℕ → Text → Text
quote_from none [] = []
quote_from (some h) [] = unicode_escape h
quote_from p (u ∷ s) = let (out, p') = quote_step p u in out ++ quote_from p' s
