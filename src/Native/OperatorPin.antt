-- ===== src/Native/OperatorPin.antt =====
-- `KXCO_PQ_BACKEND`, the operator's pin, as src/_native.node.js reads it.
use kxco_post_quantum.Prelude.{
  ℕ, ◌+◌, ◌&&◌, [], ◌∷◌, Option, none, some, map, leb, if◌then◌else◌, Text, codes, text_eq, Result,
  ok, err,
}
use kxco_post_quantum.Codec.Trim.{trim}

pub data Pin : Type 0 where
  openssl javascript : Pin

pub data PinError : Type 0 where
  unknown_backend : PinError

-- `toLowerCase` on ASCII. No other character has an ASCII letter of the two names for its
-- lower case.
abbrev pub to_lower : ℕ → ℕ
to_lower c = if leb b'A' c && leb c b'Z' then c + 32 else c

-- `none` where the variable is not set.
unfoldable pub read_pin : Option Text → Result PinError (Option Pin)
unfolding trim
read_pin none = ok none
read_pin (some []) = ok none
read_pin (some (c ∷ s)) =
    let k = map to_lower (trim (c ∷ s)) in
    if text_eq k (codes "openssl")
    then ok (some openssl)
    else if text_eq k (codes "javascript")
    then ok (some javascript)
    else err unknown_backend
