-- ===== src/Json/RoundTrip.antt =====
-- `JSON.parse` reads back what `JSON.stringify` wrote, with and without indentation.
use kxco_post_quantum.Prelude.{
  ℕ, zero, suc, ◌+◌, ◌*◌, ◌<◌, ◌≡◌, refl, sym, ap, ◌∙◌, Bool, true, false, inl, inr, [], ◌∷◌, ◌++◌,
  arith, length, length-append, Text, ok,
}
use mathlib.Core.List.{append_assoc, append-nil}
use kxco_post_quantum.Json.{
  Json, Elements, Members, null, boolean, number, string, array, object, end_elements, element,
  end_members, member,
}
use kxco_post_quantum.Json.Print.{
  quote, comma_unless, Layout, compact, indented, gap, gap_unless, after_colon, write,
  write_elements, write_members, stringify, stringify_indented,
}
use kxco_post_quantum.Json.Scan.{Parsed, skip_space}
use kxco_post_quantum.Json.Parse.{parse_lead, parse_value, parse_elements, parse_members, parse}
use kxco_post_quantum.Json.White.{gap-IsWhite, after_colon-IsWhite}
use kxco_post_quantum.Json.Tokens.{Closes}
use kxco_post_quantum.Json.Canonical.{
  IsCanonical, AreCanonical, MembersAreCanonical, StartsValue, parse_lead-number, parse_lead-string,
  parse_lead-null, parse_lead-boolean, write-StartsValue, skip_start,
}
use kxco_post_quantum.Json.Steps.{
  elements_step, members_step, gap_unless-IsWhite, no_more, no_more_members, gap_bracket, gap_brace,
}

abbrev ValueBack : Layout → Json → Type 0
ValueBack l v =
    IsCanonical v
    → (d : ℕ) (rest : Text) (f : ℕ) → Closes rest
    → 2 * length (write l d v) < f
    → parse_value f (write l d v ++ rest) ≡ ok (v, rest)

abbrev ElementsBack : Layout → Elements → Type 0
ElementsBack l es =
    AreCanonical es
    → (d : ℕ) (first : Bool) (rest : Text) (f : ℕ)
    → suc (2 * length (write_elements l d first es)) < f
    → parse_elements f first (write_elements l d first es ++ rest) ≡ ok (es, rest)

abbrev MembersBack : Layout → Members → Type 0
MembersBack l ms =
    MembersAreCanonical ms
    → (d : ℕ) (first : Bool) (rest : Text) (f : ℕ)
    → suc (2 * length (write_members l d first ms)) < f
    → parse_members f first (write_members l d first ms ++ rest) ≡ ok (ms, rest)

some_length : (s : Text) → StartsValue (s ++ []) → 0 < length s
some_length [] h = absurd h
some_length (c ∷ s) h = omega arith

rotate : (a b c e rest : Text) → (a ++ (b ++ (c ++ e))) ++ rest ≡ a ++ (b ++ (c ++ (e ++ rest)))
rotate a b c e rest =
    rw (append_assoc a (b ++ (c ++ e)) rest, append_assoc b (c ++ e) rest, append_assoc c e rest)
      refl

module _ (l : Layout) where
  leaf_back :
      (v : Json) (d : ℕ) (rest : Text) (f : ℕ)
      → IsCanonical v
      → ((E : Text → Parsed Elements) (M : Text → Parsed Members)
          → parse_lead E M (write l d v ++ rest) ≡ ok (v, rest))
      → 2 * length (write l d v) < f
      → parse_value f (write l d v ++ rest) ≡ ok (v, rest)
  unfolding parse_value
  leaf_back v d rest zero h lead k = absurd (omega arith)
  leaf_back v d rest (suc f) h lead k =
      rw (skip_start _ (write-StartsValue l d v rest h), lead) refl

  array_back : (es : Elements) → ElementsBack l es → ValueBack l (array es)
  unfolding write IsCanonical
  array_back es ih h d rest zero close k = absurd (omega arith)
  array_back es ih h d rest (suc f) close k =
      unfold parse_value skip_space parse_lead in rw (ih h d true rest f (omega arith)) refl

  object_back : (ms : Members) → MembersBack l ms → ValueBack l (object ms)
  unfolding write IsCanonical
  object_back ms ih h d rest zero close k = absurd (omega arith)
  object_back ms ih h d rest (suc f) close k =
      unfold parse_value skip_space parse_lead in rw (ih h d true rest f (omega arith)) refl

  elements-Closes :
      (d : ℕ) (es : Elements) (rest : Text) → Closes (write_elements l d false es ++ rest)
  unfolding write_elements
  elements-Closes d end_elements rest = gap_bracket l d rest
  elements-Closes d (element v es) rest = inl refl

  members-Closes :
      (d : ℕ) (ms : Members) (rest : Text) → Closes (write_members l d false ms ++ rest)
  unfolding write_members
  members-Closes d end_members rest = gap_brace l d rest
  members-Closes d (member k v ms) rest = inl refl

  write_some : (d : ℕ) (v : Json) → IsCanonical v → 0 < length (write l d v)
  write_some d v h = some_length (write l d v) (write-StartsValue l d v [] h)

  element_back :
      (v : Json) (es : Elements) → ValueBack l v → ElementsBack l es → ElementsBack l (element v es)
  unfolding IsCanonical write_elements
  element_back v es ih ihs h d first rest zero k = absurd (omega arith)
  element_back v es ih ihs (hv, hes) d first rest (suc f) k =
      let g = gap l (d + 1) in
      let tail_text = write_elements l d false es in
      let some_v = write_some (d + 1) v hv in
      let total = length-append (comma_unless first) (g ++ (write l (d + 1) v ++ tail_text)) in
      let gapped = length-append g (write l (d + 1) v ++ tail_text) in
      let parts = length-append (write l (d + 1) v) tail_text in
      ap (parse_elements (suc f) first)
        (rotate (comma_unless first) g (write l (d + 1) v) tail_text rest)
      ∙ elements_step f first v es g _ (tail_text ++ rest) rest (gap-IsWhite l (d + 1))
          (write-StartsValue l (d + 1) v _ hv)
          (ih hv (d + 1) _ f (elements-Closes d es rest) (omega arith))
          (ihs hes d false rest f (omega arith))

  member_back :
      (k : Text) (v : Json) (ms : Members)
      → ValueBack l v
      → MembersBack l ms
      → MembersBack l (member k v ms)
  unfolding IsCanonical write_members
  member_back k v ms ih ihs h d first rest zero bound = absurd (omega arith)
  member_back k v ms ih ihs (hk, new, hv, hms) d first rest (suc f) bound =
      let g = gap l (d + 1) in
      let w = after_colon l in
      let tail_text = write_members l d false ms in
      let written = write l (d + 1) v ++ tail_text in
      let total = length-append (comma_unless first) (g ++ (quote k ++ b':' ∷ (w ++ written))) in
      let gapped = length-append g (quote k ++ b':' ∷ (w ++ written)) in
      let named = length-append (quote k) (b':' ∷ (w ++ written)) in
      let spaced = length-append w written in
      let parts = length-append (write l (d + 1) v) tail_text in
      let some_v = write_some (d + 1) v hv in
      ap (parse_members (suc f) first)
        (rotate (comma_unless first) g (quote k) (b':' ∷ (w ++ written)) rest)
      ∙ ap (λ x. parse_members (suc f) first (comma_unless first ++ (g ++ (quote k ++ b':' ∷ x))))
          (append_assoc w written rest ∙ ap (λ x. w ++ x) (append_assoc _ tail_text rest))
      ∙ members_step f first k v ms g w _ (tail_text ++ rest) rest (gap-IsWhite l (d + 1))
          (after_colon-IsWhite l) hk new
          (ih hv (d + 1) _ f (members-Closes d ms rest) (omega arith))
          (ihs hms d false rest f (omega arith))

  value_back : (v : Json) → ValueBack l v
  value_back v = elim v as (ValueBack l) (ElementsBack l) (MembersBack l) [
    | null ↦ λ h d rest f close k.
        leaf_back null d rest f h (λ E M. unfold write in parse_lead-null E M rest) k
    | boolean b ↦ λ h d rest f close k.
        leaf_back (boolean b) d rest f h (λ E M. parse_lead-boolean E M l d b rest) k
    | number n ↦ λ h d rest f close k.
        leaf_back (number n) d rest f h
          (λ E M. unfold write IsCanonical in parse_lead-number E M n rest h close) k
    | string s ↦ λ h d rest f close k.
        leaf_back (string s) d rest f h
          (λ E M. unfold write IsCanonical in parse_lead-string E M s rest h) k
    | array (es → ih) ↦ array_back es ih
    | object (ms → ih) ↦ object_back ms ih
    | end_elements ↦ λ h d first rest f k.
        unfold write_elements in
        no_more (gap_unless first l d) rest first f (gap_unless-IsWhite first l d)
          (unfold write_elements in omega arith)
    | element (w → ih) (es → ihs) ↦ element_back w es ih ihs
    | end_members ↦ λ h d first rest f k.
        unfold write_members in
        no_more_members (gap_unless first l d) rest first f (gap_unless-IsWhite first l d)
          (unfold write_members in omega arith)
    | member k (w → ih) (ms → ihs) ↦ member_back k w ms ih ihs
  ]

  -- A value, and nothing but white space behind it.
  parse-write :
      (v : Json) (rest : Text)
      → IsCanonical v
      → Closes rest
      → skip_space rest ≡ []
      → parse (write l 0 v ++ rest) ≡ ok v
  unfolding parse
  parse-write v rest h close white =
      let whole = length-append (write l 0 v) rest in
      rw (value_back v h 0 rest (2 * length (write l 0 v ++ rest) + 1) close (omega arith), white)
        refl

-- `JSON.parse(JSON.stringify(v))` is `v`, for a value whose strings are code units, whose numbers are
-- literals and whose objects have no name twice.
pub parse-stringify : (v : Json) → IsCanonical v → parse (stringify v) ≡ ok v
unfolding stringify skip_space
parse-stringify v h =
    ap parse (sym (append-nil (write compact 0 v))) ∙ parse-write compact v [] h tt refl

-- So it is with an indentation of two, and a line break behind the text.
pub parse-stringify_indented :
    (v : Json) → IsCanonical v → parse (stringify_indented v ++ b'\n' ∷ []) ≡ ok v
unfolding stringify_indented skip_space
parse-stringify_indented v h = parse-write indented v (b'\n' ∷ []) h (inr (inr (inr refl))) refl
