-- ===== src/Json/Written.antt =====
-- What `JSON.stringify` writes is well-formed text.
use kxco_post_quantum.Prelude.{
  ℕ, ◌+◌, ◌≡◌, if◌then◌else◌, Bool, true, false, inl, inr, Option-cases, [], ◌∷◌, ◌++◌, none, some,
  arith, All, Text, codes, ok,
}
use kxco_post_quantum.Codec.Utf8.{IsAscii}
use kxco_post_quantum.Codec.Utf8.Decode.RoundTrip.{WellFormed, WellFormed-append}
use kxco_post_quantum.Json.{
  Json, Elements, Members, null, boolean, number, string, array, object, end_elements, element,
  end_members, member,
}
use kxco_post_quantum.Json.Quote.Laws.{IsUnit}
use kxco_post_quantum.Json.Quote.WellFormed.{ascii-WellFormed, quote_from-WellFormed}
use kxco_post_quantum.Json.Print.{
  quote, comma_unless, Layout, compact, indented, gap, gap_unless, after_colon, colon, write,
  write_elements, write_members, stringify, stringify_indented,
}
use kxco_post_quantum.Json.Scan.{NumState, begin, num_step, number_loop}
use kxco_post_quantum.Json.White.{IsWhite, gap-IsWhite}
use kxco_post_quantum.Json.Tokens.{prepend_back, stop_short}
use kxco_post_quantum.Json.Canonical.{IsCanonical, AreCanonical, MembersAreCanonical}

step-IsAscii : (n n' : NumState) (c : ℕ) → num_step n c ≡ some n' → IsAscii c
unfolding num_step
step-IsAscii n n' c h = ground arith

literal-IsAscii : (n : NumState) (s : Text) → number_loop n s ≡ ok (s, []) → All IsAscii s
unfolding number_loop
literal-IsAscii n [] h = tt
literal-IsAscii n (c ∷ s) h = elim (Option-cases (num_step n c)) [
  | inl e ↦ absurd (stop_short n c s (rw e at h))
  | inr (n', e) ↦ (step-IsAscii n n' c e, literal-IsAscii n' s (prepend_back c _ s (rw e at h)))
]

ascii_then : (c : ℕ) (s : Text) → IsAscii c → WellFormed s → WellFormed (c ∷ s)
ascii_then c s h w = WellFormed-append (ascii-WellFormed (c ∷ []) (h, tt)) w

quote-WellFormed : (s : Text) → All IsUnit s → WellFormed (quote s)
unfolding quote
quote-WellFormed s h =
    ascii_then _ _ (omega arith)
      (WellFormed-append (quote_from-WellFormed none s tt h) (ascii-WellFormed _ (omega arith, tt)))

comma-WellFormed : (first : Bool) (s : Text) → WellFormed s → WellFormed (comma_unless first ++ s)
comma-WellFormed true s w = w
comma-WellFormed false s w = ascii_then _ s (omega arith) w

white-IsAscii : (g : Text) → All IsWhite g → All IsAscii g
white-IsAscii [] h = tt
white-IsAscii (c ∷ g) (h, hs) = (white_ascii c h, white-IsAscii g hs)
  where
    white_ascii : (d : ℕ) → IsWhite d → IsAscii d
    white_ascii d e = ground arith

gap_then : (l : Layout) (d : ℕ) (s : Text) → WellFormed s → WellFormed (gap l d ++ s)
gap_then l d s w =
    WellFormed-append (ascii-WellFormed _ (white-IsAscii (gap l d) (gap-IsWhite l d))) w

closing_fits :
    (first : Bool) (l : Layout) (d c : ℕ) → IsAscii c → WellFormed (gap_unless first l d ++ c ∷ [])
closing_fits true l d c h = ascii-WellFormed (c ∷ []) (h, tt)
closing_fits false l d c h = gap_then l d _ (ascii-WellFormed (c ∷ []) (h, tt))

colon_then : (l : Layout) (s : Text) → WellFormed s → WellFormed (colon l ++ s)
unfolding after_colon
colon_then compact s w = ascii_then _ s (omega arith) w
colon_then indented s w = ascii_then _ _ (omega arith) (ascii_then _ s (omega arith) w)

abbrev ValueFits : Layout → Json → Type 0
ValueFits l v = IsCanonical v → (d : ℕ) → WellFormed (write l d v)

abbrev ElementsFit : Layout → Elements → Type 0
ElementsFit l es =
    AreCanonical es → (d : ℕ) (first : Bool) → WellFormed (write_elements l d first es)

abbrev MembersFit : Layout → Members → Type 0
MembersFit l ms =
    MembersAreCanonical ms → (d : ℕ) (first : Bool) → WellFormed (write_members l d first ms)

boolean_fits : (b : Bool) → WellFormed (if b then codes "true" else codes "false")
boolean_fits true = ascii-WellFormed _ (omega arith)
boolean_fits false = ascii-WellFormed _ (omega arith)

write-WellFormed : (l : Layout) (v : Json) → ValueFits l v
unfolding write write_elements write_members IsCanonical AreCanonical MembersAreCanonical
write-WellFormed l v = elim v as (ValueFits l) (ElementsFit l) (MembersFit l) [
  | null ↦ λ h d. ascii-WellFormed _ (omega arith)
  | boolean b ↦ λ h d. boolean_fits b
  | number n ↦ λ h d. ascii-WellFormed n (literal-IsAscii begin n h)
  | string s ↦ λ h d. quote-WellFormed s h
  | array (es → ih) ↦ λ h d. ascii_then _ _ (omega arith) (ih h d true)
  | object (ms → ih) ↦ λ h d. ascii_then _ _ (omega arith) (ih h d true)
  | end_elements ↦ λ h d first. closing_fits first l d b']' (omega arith)
  | element (w → ih) (es → ihs) ↦ λ h d first.
      comma-WellFormed first _
        (gap_then l (d + 1) _ (WellFormed-append (ih h.0 (d + 1)) (ihs h.1 d false)))
  | end_members ↦ λ h d first. closing_fits first l d b'}' (omega arith)
  | member k (w → ih) (ms → ihs) ↦ λ h d first. comma-WellFormed first _ (
      gap_then l (d + 1) _ (
        WellFormed-append (quote-WellFormed k h.0)
          (colon_then l _ (WellFormed-append (ih h.2 (d + 1)) (ihs h.3 d false)))))
]

pub stringify-WellFormed : (v : Json) → IsCanonical v → WellFormed (stringify v)
unfolding stringify
stringify-WellFormed v h = write-WellFormed compact v h 0

pub stringify_indented-WellFormed : (v : Json) → IsCanonical v → WellFormed (stringify_indented v)
unfolding stringify_indented
stringify_indented-WellFormed v h = write-WellFormed indented v h 0
