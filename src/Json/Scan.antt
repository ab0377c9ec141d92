-- ===== src/Json/Scan.antt =====
-- The tokens of `JSON.parse`: white space, literals, strings and numbers. A parser returns what
-- follows the part that it has read.
use kxco_post_quantum.Prelude.{
  ℕ, zero, suc, ◌+◌, ◌*◌, Bool, true, false, ◌&&◌, ◌||◌, [], ◌∷◌, Option, none, some, ltb, leb,
  ◌==◌, if◌then◌else◌, Text, Result, ok, err,
}
use kxco_post_quantum.Codec.Hex.{is_hex, hex_value}

-- `out_of_fuel` has no counterpart in JavaScript.
pub data ParseError : Type 0 where
  syntax_error out_of_fuel : ParseError

abbrev pub Parsed {ℓ} : Type ℓ → Type ℓ
Parsed A = Result ParseError (A × Text)

abbrev pub is_space : ℕ → Bool
is_space c = c == 32 || c == 9 || c == 10 || c == 13

unfoldable pub skip_space : Text → Text
skip_space [] = []
skip_space (c ∷ s) = if is_space c then skip_space s else c ∷ s

-- The text behind `p`.
unfoldable pub expect : Text → Text → Result ParseError Text
expect [] s = ok s
expect (c ∷ p) [] = err syntax_error
expect (c ∷ p) (d ∷ s) = if c == d then expect p s else err syntax_error

unfoldable pub starts : ℕ → Text → Bool
starts c [] = false
starts c (d ∷ s) = d == c

-- Where the reader of a string stands: in the text, behind a backslash, or before the next of the
-- four digits of `\u`.
pub data Mode : Type 0 where
  plain escaped : Mode
  digits : (left value : ℕ) → Mode

pub data Next : Type 0 where
  finish bad : Next
  go : Mode → Next
  emit : ℕ → Next

abbrev pub read_plain : ℕ → Next
read_plain c =
    if c == b'"'
    then finish
    else if c == b'\\'
    then go escaped
    else if ltb c 32
    then bad
    else emit c

abbrev pub read_escaped : ℕ → Next
read_escaped c =
    if c == b'"' || c == b'\\' || c == b'/'
    then emit c
    else if c == b'b'
    then emit 8
    else if c == b't'
    then emit 9
    else if c == b'n'
    then emit 10
    else if c == b'f'
    then emit 12
    else if c == b'r'
    then emit 13
    else if c == b'u'
    then go (digits 3 0)
    else bad

abbrev pub read_digit : ℕ → ℕ → Next
read_digit zero value = emit value
read_digit (suc left) value = go (digits left value)

unfoldable pub string_step : Mode → ℕ → Next
unfolding is_hex hex_value
string_step plain c = read_plain c
string_step escaped c = read_escaped c
string_step (digits left value) c =
    if is_hex c then read_digit left (value * 16 + hex_value c) else bad

abbrev pub prepend : ℕ → Parsed Text → Parsed Text
prepend c (ok (t, rest)) = ok (c ∷ t, rest)
prepend c (err e) = err e

abbrev pub advance : Next → Text → (Mode → Parsed Text) → Parsed Text
advance finish s more = ok ([], s)
advance bad s more = err syntax_error
advance (go m) s more = more m
advance (emit u) s more = prepend u (more plain)

-- A string, from behind its opening quotation mark.
unfoldable pub string_loop : Mode → Text → Parsed Text
string_loop m [] = err syntax_error
string_loop m (c ∷ s) = advance (string_step m c) s (λ m'. string_loop m' s)

-- Where the reader of a number stands.
pub data NumState : Type 0 where
  begin sign zero_first int point fraction exponent exp_sign exp_digits : NumState

abbrev pub is_digit : ℕ → Bool
is_digit c = leb b'0' c && leb c b'9'

abbrev digit_to : NumState → ℕ → Option NumState
digit_to n c = if is_digit c then some n else none

abbrev first_digit : ℕ → Option NumState
first_digit c = if c == b'0' then some zero_first else digit_to int c

abbrev is_exponent : ℕ → Bool
is_exponent c = c == b'e' || c == b'E'

abbrev fraction_or_exponent : ℕ → Option NumState
fraction_or_exponent c =
    if c == b'.' then some point else if is_exponent c then some exponent else none

unfoldable pub num_step : NumState → ℕ → Option NumState
num_step begin c = if c == b'-' then some sign else first_digit c
num_step sign c = first_digit c
num_step zero_first c = fraction_or_exponent c
num_step int c = if is_digit c then some int else fraction_or_exponent c
num_step point c = digit_to fraction c
num_step fraction c =
    if is_digit c then some fraction else if is_exponent c then some exponent else none
num_step exponent c = if c == b'+' || c == b'-' then some exp_sign else digit_to exp_digits c
num_step exp_sign c = digit_to exp_digits c
num_step exp_digits c = digit_to exp_digits c

unfoldable pub num_ends : NumState → Bool
num_ends zero_first = true
num_ends int = true
num_ends fraction = true
num_ends exp_digits = true
num_ends _ = false

abbrev pub num_stop : NumState → Text → Parsed Text
num_stop n s = if num_ends n then ok ([], s) else err syntax_error

abbrev pub num_resume : Option NumState → ℕ → Parsed Text → (NumState → Parsed Text) → Parsed Text
num_resume none c stop more = stop
num_resume (some n) c stop more = prepend c (more n)

-- A number, as far as its grammar goes.
unfoldable pub number_loop : NumState → Text → Parsed Text
number_loop n [] = num_stop n []
number_loop n (c ∷ s) = num_resume (num_step n c) c (num_stop n (c ∷ s)) (λ n'. number_loop n' s)
