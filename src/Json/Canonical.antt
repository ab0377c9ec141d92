-- ===== src/Json/Canonical.antt =====
-- The JSON values that survive the text, and how the text of one starts.
use kxco_post_quantum.Prelude.{
  ℕ, ◌≤◌, ◌≡◌, refl, ◌∙◌, Bool, true, false, Option-cases, inl, inr, [], ◌∷◌, ◌++◌, none, some,
  arith, ◌==◌, All, Text, codes, ok, err,
}
use mathlib.Core.List.{append_assoc}
use kxco_post_quantum.Json.{
  Json, Elements, Members, null, boolean, number, string, array, object, end_elements, element,
  end_members, member, get_member,
}
use kxco_post_quantum.Json.Quote.{quote_from}
use kxco_post_quantum.Json.Quote.Laws.{IsUnit, string_loop-quote_from}
use kxco_post_quantum.Json.Print.{quote, Layout, write}
use kxco_post_quantum.Json.Scan.{
  Parsed, is_space, skip_space, expect, starts, begin, NumState, num_step, num_ends, num_stop,
  number_loop, syntax_error,
}
use kxco_post_quantum.Json.Parse.{parse_lead, map_parsed}
use kxco_post_quantum.Json.Tokens.{Closes, IsNumber, number_loop-literal, skip_solid}

-- Strings of code units, numbers by their literals, and no name twice in an object.
unfoldable mutual
  pub IsCanonical : Json → Type 0
  IsCanonical (number n) = IsNumber n
  IsCanonical (string s) = All IsUnit s
  IsCanonical (array es) = AreCanonical es
  IsCanonical (object ms) = MembersAreCanonical ms
  IsCanonical _ = Unit {0}

  pub AreCanonical : Elements → Type 0
  AreCanonical end_elements = Unit {0}
  AreCanonical (element v es) = IsCanonical v × AreCanonical es

  pub MembersAreCanonical : Members → Type 0
  MembersAreCanonical end_members = Unit {0}
  MembersAreCanonical (member k v ms) =
      All IsUnit k × (get_member k ms ≡ none) × IsCanonical v × MembersAreCanonical ms

-- A text whose first character starts a value: no white space, and no closing bracket.
abbrev pub StartsValue : Text → Type 0
StartsValue [] = ⊥
StartsValue (c ∷ t) = (is_space c ≡ false) × ((c == b']') ≡ false) × ((c == b'}') ≡ false)

numeral_from : (c : ℕ) (n : NumState) → num_step begin c ≡ some n → (45 ≤ c) × (c ≤ 57)
unfolding num_step
numeral_from c n h = ground arith

number_first : (c : ℕ) (t : Text) → IsNumber (c ∷ t) → (45 ≤ c) × (c ≤ 57)
unfolding number_loop num_ends
number_first c t h = elim (Option-cases (num_step begin c)) [
  | inr (n, e) ↦ numeral_from c n e
  | inl e ↦ absurd (refused (rw e at h))
]
  where
    refused : num_stop begin (c ∷ t) ≡ ok (c ∷ t, []) → ⊥
    refused p = not_ok p
      where
        not_ok : ◌≡◌ {A = Parsed Text} (err syntax_error) (ok (c ∷ t, [])) → ⊥
        not_ok q = cc

no_empty_number : IsNumber [] → ⊥
unfolding number_loop num_ends
no_empty_number h = not_ok h
  where
    not_ok : ◌≡◌ {A = Parsed Text} (err syntax_error) (ok ([], [])) → ⊥
    not_ok q = cc

module _ (elements : Text → Parsed Elements) (members : Text → Parsed Members) where
  lead_number :
      (c : ℕ) (s : Text)
      → 45 ≤ c
      → c ≤ 57
      → parse_lead elements members (c ∷ s) ≡ map_parsed number (number_loop begin (c ∷ s))
  unfolding parse_lead
  lead_number c s low high = ground arith

  pub parse_lead-number :
      (n rest : Text)
      → IsNumber n
      → Closes rest
      → parse_lead elements members (n ++ rest) ≡ ok (number n, rest)
  parse_lead-number [] rest h close = absurd (no_empty_number h)
  parse_lead-number (c ∷ t) rest h close =
      let (low, high) = number_first c t h in
      lead_number c (t ++ rest) low high ∙ rw (number_loop-literal (c ∷ t) rest h close) refl

  pub parse_lead-string :
      (s rest : Text)
      → All IsUnit s
      → parse_lead elements members (quote s ++ rest) ≡ ok (string s, rest)
  unfolding parse_lead quote
  parse_lead-string s rest h =
      rw (append_assoc (quote_from none s) (b'"' ∷ []) rest, string_loop-quote_from s rest h) refl

  pub parse_lead-null :
      (rest : Text) → parse_lead elements members (codes "null" ++ rest) ≡ ok (null, rest)
  unfolding parse_lead expect
  parse_lead-null rest = refl

  pub parse_lead-boolean :
      (l : Layout) (d : ℕ) (b : Bool) (rest : Text)
      → parse_lead elements members (write l d (boolean b) ++ rest) ≡ ok (boolean b, rest)
  unfolding parse_lead expect write
  parse_lead-boolean l d true rest = refl
  parse_lead-boolean l d false rest = refl

pub write-StartsValue :
    (l : Layout) (d : ℕ) (v : Json) (rest : Text)
    → IsCanonical v
    → StartsValue (write l d v ++ rest)
unfolding write quote IsCanonical
write-StartsValue l d null rest h = (refl, refl, refl)
write-StartsValue l d (boolean true) rest h = (refl, refl, refl)
write-StartsValue l d (boolean false) rest h = (refl, refl, refl)
write-StartsValue l d (number []) rest h = absurd (no_empty_number h)
write-StartsValue l d (number (c ∷ t)) rest h =
    let (low, high) = number_first c t h in (ground arith, ground arith, ground arith)
write-StartsValue l d (string s) rest h = (refl, refl, refl)
write-StartsValue l d (array es) rest h = (refl, refl, refl)
write-StartsValue l d (object ms) rest h = (refl, refl, refl)

pub skip_start : (s : Text) → StartsValue s → skip_space s ≡ s
skip_start [] h = absurd h
skip_start (c ∷ s) h = skip_solid c s h.0

pub no_bracket : (s : Text) → StartsValue s → starts b']' s ≡ false
unfolding starts
no_bracket [] h = absurd h
no_bracket (c ∷ s) h = h.1

pub no_brace : (s : Text) → StartsValue s → starts b'}' s ≡ false
unfolding starts
no_brace [] h = absurd h
no_brace (c ∷ s) h = h.2
