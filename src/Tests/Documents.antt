-- ===== src/Tests/Documents.antt =====
-- The JSON and the UTF-8 that src/jws.js asks for, at concrete inputs.
use kxco_post_quantum.Prelude.{
  Option, some, none, text_eq, if◌then◌else◌, ◌≡◌, refl, true, [], ◌∷◌, ◌++◌, codes, Text, ok,
}
use kxco_post_quantum.Codec.Utf8.Decode.{text_decode, decode_from, decode_step, decode_first}
use kxco_post_quantum.Codec.Hex.{hex_digit, is_hex, hex_value}
use kxco_post_quantum.Json.{
  Json, null, boolean, number, string, array, object, end_elements, element, end_members, member,
  get_member,
}
use kxco_post_quantum.Json.Quote.{
  unicode_escape, short_letter, quote_unit, quote_first, quote_step, quote_from,
}
use kxco_post_quantum.Json.Numbers.{as_written}
use kxco_post_quantum.Json.Print.{gap, quote, write, stringify}
use kxco_post_quantum.Json.Scan.{
  skip_space, expect, starts, string_loop, string_step, number_loop, num_step, num_ends,
}
use kxco_post_quantum.Json.Parse.{
  remove_member, put_first, parse_lead, separator, parse_name, parse_value, parse_elements,
  parse_members, parse,
}

-- White space, an escape, and a name that comes twice.
abbrev sample_text : Text
sample_text = codes " {\"a\" : \"M\\u002dD\", \"n\":[1, true] , \"a\":null}"

abbrev read_back : Json
read_back = object (
    member (codes "a") null (
      member (codes "n")
        (array (element (number (codes "1")) (element (boolean true) end_elements))) end_members))

parses : parse sample_text ≡ ok read_back
unfolding parse parse_value parse_elements parse_members parse_lead parse_name separator put_first
    remove_member get_member skip_space expect starts string_loop string_step is_hex hex_value
    number_loop num_step num_ends
parses = refl

-- A byte that starts no sequence is replaced, and a byte order mark is dropped.
decodes_broken :
    text_decode (0xef ∷ 0xbb ∷ 0xbf ∷ 0x41 ∷ 0xff ∷ 0xe2 ∷ 0x82 ∷ []) ≡ 0x41 ∷ 0xfffd ∷ 0xfffd ∷ []
unfolding text_decode decode_from decode_step decode_first
decodes_broken = refl

stringifies :
    stringify (string (codes "a\"" ++ 10 ∷ 0xd800 ∷ 1 ∷ [])) ≡ codes "\"a\\\"\\n\\ud800\\u0001\""
unfolding stringify write quote quote_from quote_step quote_first quote_unit short_letter
    unicode_escape hex_digit
stringifies = refl

-- What the engine writes for these literals, and null for the others.
abbrev number_text : Text → Option Text
number_text n =
    if text_eq n (codes "1.0")
    then some (codes "1")
    else if text_eq n (codes "-0")
    then some (codes "0")
    else none

-- `[1.0,-0,1e400]`
abbrev three_numbers : Json
three_numbers = array (
    element (number (codes "1.0"))
      (element (number (codes "-0")) (element (number (codes "1e400")) end_elements)))

writes_numbers : stringify (as_written number_text three_numbers) ≡ codes "[1,0,null]"
unfolding stringify write gap as_written
writes_numbers = refl
