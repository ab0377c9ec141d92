-- ===== src/Jws/Segments.antt =====
-- The three segments of a token, and the strict reading of one.
pub mod Laws
pub mod RoundTrip
use kxco_post_quantum.Prelude.{
  ℕ, Bool, true, false, not, ◌&&◌, ◌||◌, List, [], ◌∷◌, ◌++◌, Option, none, some, leb, ◌==◌,
  if◌then◌else◌, all, Text, Bytes, text_eq, Result, ok, err, require, require_some, ◌>>=◌, ◌>>◌,
}
use kxco_post_quantum.Codec.Base64.{Runtime, b64url, from_b64url}

-- `[A-Za-z0-9_-]`
abbrev pub is_url_char : ℕ → Bool
is_url_char c =
    (leb b'A' c && leb c b'Z')
    || (leb b'a' c && leb c b'z')
    || (leb b'0' c && leb c b'9')
    || c == b'_'
    || c == b'-'

pub data SegmentError : Type 0 where
  not_base64url not_canonical undecodable : SegmentError

abbrev pub is_empty : Text → Bool
is_empty [] = true
is_empty (c ∷ s) = false

-- `strictB64url`
unfoldable pub strict_b64url : Runtime → Text → Result SegmentError Bytes
strict_b64url rt str = do
  require (not (is_empty str) && all is_url_char str) not_base64url
  bytes ← require_some (from_b64url rt str) undecodable
  require (text_eq (b64url rt bytes) str) not_canonical
  ok bytes

abbrev pub cons_first : ℕ → List Text → List Text
cons_first c [] = (c ∷ []) ∷ []
cons_first c (p ∷ ps) = (c ∷ p) ∷ ps

-- `s.split(c)`
unfoldable pub split_on : ℕ → Text → List Text
split_on c [] = [] ∷ []
split_on c (d ∷ s) = if d == c then [] ∷ split_on c s else cons_first d (split_on c s)

pub record Parts : Type 0 where
  pub protected : Text
  pub payload : Text
  pub signature : Text

-- `parts.length !== 3`
abbrev pub three_parts : List Text → Option Parts
three_parts (a ∷ b ∷ c ∷ []) = some (record { protected = a; payload = b; signature = c })
three_parts _ = none

abbrev pub dot : ℕ
dot = b'.'

-- The signing input, before it is encoded.
abbrev pub signing_text : Text → Text → Text
signing_text protected payload = protected ++ dot ∷ payload
