-- ===== src/Json/Parse.antt =====
-- `JSON.parse`, by recursive descent. What a call leaves of the text is no part of it in the eyes of
-- the checker, so each call costs a unit of fuel.
use kxco_post_quantum.Prelude.{
  ℕ, zero, suc, ◌+◌, ◌*◌, Bool, true, false, [], ◌∷◌, Option, none, some, ◌==◌, if◌then◌else◌,
  length, Text, codes, text_eq, Result, ok, err, ◌>>=◌,
}
use mathlib.Core.List.{tail}
use kxco_post_quantum.Json.{
  Json, Elements, Members, null, boolean, number, string, array, object, end_elements, element,
  end_members, member, get_member,
}
use kxco_post_quantum.Json.Scan.{
  ParseError, syntax_error, out_of_fuel, Parsed, skip_space, expect, starts, plain, string_loop,
  begin, number_loop,
}

-- A later member of the same name gives its value to the earlier one.
unfoldable pub remove_member : Text → Members → Members
remove_member k end_members = end_members
remove_member k (member k' v ms) =
    if text_eq k' k then remove_member k ms else member k' v (remove_member k ms)

abbrev pub with_later : Text → Json → Option Json → Members → Members
with_later k v none ms = member k v ms
with_later k v (some v') ms = member k v' (remove_member k ms)

unfoldable pub put_first : Text → Json → Members → Members
put_first k v ms = with_later k v (get_member k ms) ms

abbrev pub map_parsed {ℓ κ} : {A : Type ℓ} {B : Type κ} → (A → B) → Parsed A → Parsed B
map_parsed f (ok (a, s)) = ok (f a, s)
map_parsed f (err e) = err e

abbrev pub literal : Text → Json → Text → Parsed Json
literal p v s = do rest ← expect p s; ok (v, rest)

-- What the first character of a value decides.
unfoldable pub parse_lead : (Text → Parsed Elements) → (Text → Parsed Members) → Text → Parsed Json
parse_lead elements members [] = err syntax_error
parse_lead elements members (c ∷ s) =
    if c == b'"'
    then map_parsed string (string_loop plain s)
    else if c == b'['
    then map_parsed array (elements s)
    else if c == b'{'
    then map_parsed object (members s)
    else if c == b'n'
    then literal (codes "null") null (c ∷ s)
    else if c == b't'
    then literal (codes "true") (boolean true) (c ∷ s)
    else if c == b'f'
    then literal (codes "false") (boolean false) (c ∷ s)
    else map_parsed number (number_loop begin (c ∷ s))

-- The comma before every part but the first.
unfoldable pub separator : Bool → Text → Result ParseError Text
separator first s = if first then ok s else expect (b',' ∷ []) (skip_space s)

-- A name and the colon behind it.
unfoldable pub parse_name : Text → Parsed Text
parse_name s = do
  s ← expect (b'"' ∷ []) (skip_space s)
  (k, s) ← string_loop plain s
  s ← expect (b':' ∷ []) (skip_space s)
  ok (k, s)

unfoldable mutual
  pub parse_value : ℕ → Text → Parsed Json
  parse_value zero s = err out_of_fuel
  parse_value (suc f) s = parse_lead (parse_elements f true) (parse_members f true) (skip_space s)

  pub parse_elements : ℕ → Bool → Text → Parsed Elements
  parse_elements zero first s = err out_of_fuel
  parse_elements (suc f) first s =
      let more = do
        s ← separator first s
        (v, s) ← parse_value f s
        (es, s) ← parse_elements f false s
        ok (element v es, s)
      in if starts b']' (skip_space s) then ok (end_elements, tail (skip_space s)) else more

  pub parse_members : ℕ → Bool → Text → Parsed Members
  parse_members zero first s = err out_of_fuel
  parse_members (suc f) first s =
      let more = do
        s ← separator first s
        (k, s) ← parse_name s
        (v, s) ← parse_value f s
        (ms, s) ← parse_members f false s
        ok (put_first k v ms, s)
      in if starts b'}' (skip_space s) then ok (end_members, tail (skip_space s)) else more

-- Nothing but white space may follow the value.
abbrev pub finish_parse : Json → Text → Result ParseError Json
finish_parse v [] = ok v
finish_parse v (c ∷ s) = err syntax_error

unfoldable pub parse : Text → Result ParseError Json
parse s = do (v, rest) ← parse_value (2 * length s + 1) s; finish_parse v (skip_space rest)
