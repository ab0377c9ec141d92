-- ===== src/Json/Print.antt =====
-- `JSON.stringify` of a JSON value, with no indentation or with one of two spaces. A number
-- of the value is the text that is written for it: `as_written` of Json/Numbers gives a value that was
-- read its numbers' texts.
use kxco_post_quantum.Prelude.{
  ℕ, ◌+◌, ◌*◌, Bool, true, false, [], ◌∷◌, ◌++◌, none, if◌then◌else◌, replicate, Text, codes,
}
use kxco_post_quantum.Json.{
  Json, Elements, Members, null, boolean, number, string, array, object, end_elements, element,
  end_members, member,
}
use kxco_post_quantum.Json.Quote.{quote_from}

unfoldable pub quote : Text → Text
quote s = b'"' ∷ (quote_from none s ++ b'"' ∷ [])

-- The comma before every part but the first.
abbrev pub comma_unless : Bool → Text
comma_unless first = if first then [] else b',' ∷ []

-- No third argument, or a third argument of 2.
pub data Layout : Type 0 where
  compact indented : Layout

-- What stands before a part at a depth.
unfoldable pub gap : Layout → ℕ → Text
gap compact d = []
gap indented d = b'\n' ∷ replicate (2 * d) b' '

unfoldable pub after_colon : Layout → Text
after_colon compact = []
after_colon indented = b' ' ∷ []

abbrev pub colon : Layout → Text
colon l = b':' ∷ after_colon l

-- An empty array or object is closed at once.
abbrev pub gap_unless : Bool → Layout → ℕ → Text
gap_unless first l d = if first then [] else gap l d

unfoldable mutual
  pub write : Layout → ℕ → Json → Text
  write l d null = codes "null"
  write l d (boolean b) = if b then codes "true" else codes "false"
  write l d (number n) = n
  write l d (string s) = quote s
  write l d (array es) = b'[' ∷ write_elements l d true es
  write l d (object ms) = b'{' ∷ write_members l d true ms

  pub write_elements : Layout → ℕ → Bool → Elements → Text
  write_elements l d first end_elements = gap_unless first l d ++ b']' ∷ []
  write_elements l d first (element v es) =
      comma_unless first ++ (gap l (d + 1) ++ (write l (d + 1) v ++ write_elements l d false es))

  pub write_members : Layout → ℕ → Bool → Members → Text
  write_members l d first end_members = gap_unless first l d ++ b'}' ∷ []
  write_members l d first (member k v ms) =
      comma_unless first
      ++ (gap l (d + 1)
          ++ (quote k ++ (colon l ++ (write l (d + 1) v ++ write_members l d false ms))))

-- `JSON.stringify(v)`
unfoldable pub stringify : Json → Text
stringify v = write compact 0 v

-- `JSON.stringify(v, null, 2)`
unfoldable pub stringify_indented : Json → Text
stringify_indented v = write indented 0 v
