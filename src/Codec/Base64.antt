-- ===== src/Codec/Base64.antt =====
-- `b64url` and `fromB64url` of src/jws.js and src/seed.js. They call `Buffer` where the runtime
-- has it and `btoa` and `atob` where it has not; the latter are written out as the WHATWG
-- standard defines them, `Buffer` is a parameter.
pub mod Laws
pub mod RoundTrip
use kxco_post_quantum.Prelude.{
  ℕ, zero, suc, ◌+◌, ◌-◌, ◌*◌, ◌/◌, ◌%◌, ◌<◌, ◌≡◌, Bool, true, false, ◌&&◌, ◌||◌, List, [], ◌∷◌,
  ◌++◌, map, Option, none, some, ltb, leb, ◌==◌, if◌then◌else◌, length, replicate, all, All, Text,
  Bytes, IsByte,
}

-- The six-bit groups of a byte array, the last one filled up with zeros.
unfoldable pub sextets : Bytes → List ℕ
sextets [] = []
sextets (a ∷ []) = a / 4 ∷ a % 4 * 16 ∷ []
sextets (a ∷ b ∷ []) = a / 4 ∷ (a % 4 * 16 + b / 16) ∷ b % 16 * 4 ∷ []
sextets (a ∷ b ∷ c ∷ r) = a / 4 ∷ (a % 4 * 16 + b / 16) ∷ (b % 16 * 4 + c / 64) ∷ c % 64 ∷ sextets r

-- The whole bytes of a list of six-bit groups; the bits that are left over are dropped.
unfoldable pub octets : List ℕ → Bytes
octets [] = []
octets (a ∷ []) = []
octets (a ∷ b ∷ []) = (a * 4 + b / 16) ∷ []
octets (a ∷ b ∷ c ∷ []) = (a * 4 + b / 16) ∷ (b % 16 * 16 + c / 4) ∷ []
octets (a ∷ b ∷ c ∷ d ∷ r) = (a * 4 + b / 16) ∷ (b % 16 * 16 + c / 4) ∷ (c % 4 * 64 + d) ∷ octets r

unfoldable pub std_char : ℕ → ℕ
std_char v =
    if ltb v 26
    then v + 65
    else if ltb v 52
    then v + 71
    else if ltb v 62
    then v - 4
    else if v == 62
    then b'+'
    else b'/'

unfoldable pub url_char : ℕ → ℕ
url_char v =
    if ltb v 26
    then v + 65
    else if ltb v 52
    then v + 71
    else if ltb v 62
    then v - 4
    else if v == 62
    then b'-'
    else b'_'

unfoldable pub is_std : ℕ → Bool
is_std c =
    (leb b'A' c && leb c b'Z')
    || (leb b'a' c && leb c b'z')
    || (leb b'0' c && leb c b'9')
    || c == b'+'
    || c == b'/'

unfoldable pub std_value : ℕ → ℕ
std_value c =
    if c == b'+'
    then 62
    else if c == b'/'
    then 63
    else if leb c b'9'
    then c + 4
    else if leb c b'Z'
    then c - 65
    else c - 71

-- RFC 4648 section 5, without padding.
unfoldable pub base64url : Bytes → Text
unfolding sextets url_char
base64url bs = map url_char (sextets bs)

abbrev pub pad_count : Bytes → ℕ
pad_count bs = (3 - length bs % 3) % 3

unfoldable pub btoa : Bytes → Text
unfolding sextets std_char
btoa bs = map std_char (sextets bs) ++ replicate (pad_count bs) b'='

abbrev pub is_space : ℕ → Bool
is_space c = c == 9 || c == 10 || c == 12 || c == 13 || c == 32

unfoldable pub remove_spaces : Text → Text
remove_spaces [] = []
remove_spaces (c ∷ s) = if is_space c then remove_spaces s else c ∷ remove_spaces s

abbrev is_eq_or_empty : Text → Bool
is_eq_or_empty [] = true
is_eq_or_empty (c ∷ []) = c == b'='
is_eq_or_empty (c ∷ d ∷ s) = false

-- One or two `=` are taken from the end.
unfoldable pub unpad : Text → Text
unpad [] = []
unpad (c ∷ s) = if c == b'=' && is_eq_or_empty s then [] else c ∷ unpad s

-- "Forgiving-base64 decode"; `none` is the InvalidCharacterError that `atob` throws.
unfoldable pub decode_unpadded : Text → Option Bytes
unfolding is_std octets std_value
decode_unpadded u =
    if length u % 4 == 1
    then none
    else if all is_std u
    then some (octets (map std_value u))
    else none

unfoldable pub atob : Text → Option Bytes
unfolding remove_spaces unpad decode_unpadded
atob s = let t = remove_spaces s in decode_unpadded (if length t % 4 == 0 then unpad t else t)

-- `s.replace(/x/g, y)` for single characters.
abbrev pub replace : ℕ → ℕ → Text → Text
replace x y s = map (λ c. if c == x then y else c) s

-- `s.replace(/=+$/, '')`
unfoldable pub strip_padding : Text → Text
strip_padding [] = []
strip_padding (c ∷ s) = if all (λ d. d == b'=') (c ∷ s) then [] else c ∷ strip_padding s

-- What the functions ask the runtime for.
pub record Runtime : Type 0 where
  pub has_buffer : Bool
  pub buffer_to_base64url : Bytes → Text
  pub buffer_from_base64url : Text → Bytes

-- The documented behaviour of `Buffer`: it writes RFC 4648 section 5 without padding, and reads
-- what it wrote. Nothing is said of how it reads another text.
pub record BufferLaws (rt : Runtime) : Type 0 where
  pub writes : (bs : Bytes) → All IsByte bs → rt.buffer_to_base64url bs ≡ base64url bs
  pub reads : (bs : Bytes) → All IsByte bs → rt.buffer_from_base64url (base64url bs) ≡ bs

unfoldable pub b64url : Runtime → Bytes → Text
unfolding btoa strip_padding
b64url rt bytes =
    if rt.has_buffer
    then rt.buffer_to_base64url bytes
    else strip_padding (replace b'/' b'_' (replace b'+' b'-' (btoa bytes)))

unfoldable pub from_b64url : Runtime → Text → Option Bytes
unfolding atob
from_b64url rt str =
    let padded = replace b'_' b'/' (replace b'-' b'+' str) in
    if rt.has_buffer
    then some (rt.buffer_from_base64url str)
    else atob (padded ++ replicate ((4 - length padded % 4) % 4) b'=')
