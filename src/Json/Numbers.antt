-- ===== src/Json/Numbers.antt =====
-- The numbers of a value that `JSON.parse` has read and `JSON.stringify` is to write. The engine turns a
-- literal into a double and writes the double, so `1.0` is written as `1`, and `1e400` as `null`. What it
-- writes for a literal is a parameter, `none` where that is `null`.
use kxco_post_quantum.Prelude.{◌≡◌, refl, Bool-cases, inl, inr, Option, none, some, Text, text_eq}
use kxco_post_quantum.Json.{
  Json, Elements, Members, null, boolean, number, string, array, object, end_elements, element,
  end_members, member, get_member,
}
use kxco_post_quantum.Json.Tokens.{IsNumber}
use kxco_post_quantum.Json.Canonical.{IsCanonical, AreCanonical, MembersAreCanonical}

abbrev number_or_null : Option Text → Json
number_or_null none = null
number_or_null (some n) = number n

unfoldable mutual
  pub as_written : (Text → Option Text) → Json → Json
  as_written number_text null = null
  as_written number_text (boolean b) = boolean b
  as_written number_text (number n) = number_or_null (number_text n)
  as_written number_text (string s) = string s
  as_written number_text (array es) = array (elements_as_written number_text es)
  as_written number_text (object ms) = object (members_as_written number_text ms)

  elements_as_written : (Text → Option Text) → Elements → Elements
  elements_as_written number_text end_elements = end_elements
  elements_as_written number_text (element v es) =
      element (as_written number_text v) (elements_as_written number_text es)

  members_as_written : (Text → Option Text) → Members → Members
  members_as_written number_text end_members = end_members
  members_as_written number_text (member k v ms) =
      member k (as_written number_text v) (members_as_written number_text ms)

-- What the engine writes for a number is a literal.
abbrev pub WritesNumbers : (Text → Option Text) → Type 0
WritesNumbers number_text = (n m : Text) → number_text n ≡ some m → IsNumber m

module _ (number_text : Text → Option Text) (numbers : WritesNumbers number_text) where
  still_absent :
      (k : Text) (ms : Members)
      → get_member k ms ≡ none
      → get_member k (members_as_written number_text ms) ≡ none
  unfolding get_member members_as_written
  still_absent k end_members h = h
  still_absent k (member j v ms) h = elim (Bool-cases (text_eq j k)) [
    | inl e ↦ cc (rw e at h)
    | inr e ↦ rw e (still_absent k ms (rw e at h))
  ]

  written_number : (n : Text) (m : Option Text) → number_text n ≡ m → IsCanonical (number_or_null m)
  unfolding IsCanonical
  written_number n none e = tt
  written_number n (some m) e = numbers n m e

  mutual
    unfolding as_written IsCanonical

    pub as_written-IsCanonical : (v : Json) → IsCanonical v → IsCanonical (as_written number_text v)
    as_written-IsCanonical null h = tt
    as_written-IsCanonical (boolean b) h = tt
    as_written-IsCanonical (number n) h = written_number n (number_text n) refl
    as_written-IsCanonical (string s) h = h
    as_written-IsCanonical (array es) h = elements-AreCanonical es h
    as_written-IsCanonical (object ms) h = members-AreCanonical ms h

    elements-AreCanonical :
        (es : Elements) → AreCanonical es → AreCanonical (elements_as_written number_text es)
    elements-AreCanonical end_elements h = tt
    elements-AreCanonical (element v es) (h, hs) =
        (as_written-IsCanonical v h, elements-AreCanonical es hs)

    members-AreCanonical :
        (ms : Members)
        → MembersAreCanonical ms
        → MembersAreCanonical (members_as_written number_text ms)
    members-AreCanonical end_members h = tt
    members-AreCanonical (member k v ms) (u, absent, h, hs) =
        (u, still_absent k ms absent, as_written-IsCanonical v h, members-AreCanonical ms hs)
