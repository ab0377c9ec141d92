-- ===== src/Json/Steps.antt =====
-- One step of `JSON.parse` over the elements or the members that `JSON.stringify` wrote.
use kxco_post_quantum.Prelude.{
  ℕ, zero, suc, ◌<◌, ◌≡◌, refl, Bool, true, false, inl, inr, [], ◌∷◌, ◌++◌, none, arith, All, Text,
  ok,
}
use mathlib.Core.List.{append_assoc}
use kxco_post_quantum.Json.{
  Json, Elements, Members, end_elements, element, end_members, member, get_member,
}
use kxco_post_quantum.Json.Quote.Laws.{IsUnit}
use kxco_post_quantum.Json.Print.{quote, comma_unless, Layout, compact, indented, gap, gap_unless}
use kxco_post_quantum.Json.Scan.{skip_space, expect, starts}
use kxco_post_quantum.Json.Parse.{put_first, separator, parse_value, parse_elements, parse_members}
use kxco_post_quantum.Json.White.{
  IsWhite, skip_white, parse_value_white, parse_name_white, gap-IsWhite,
}
use kxco_post_quantum.Json.Tokens.{Closes, parse_name-quote}
use kxco_post_quantum.Json.Canonical.{StartsValue, skip_start, no_bracket, no_brace}

pub elements_step :
    (f : ℕ) (first : Bool) (v : Json) (es : Elements) (g body after rest : Text)
    → All IsWhite g
    → StartsValue body
    → parse_value f body ≡ ok (v, after)
    → parse_elements f false after ≡ ok (es, rest)
    → parse_elements (suc f) first (comma_unless first ++ (g ++ body)) ≡ ok (element v es, rest)
unfolding parse_elements separator
elements_step f true v es g body after rest hg start hv hes =
    rw
      (
        skip_white g body hg,
        skip_start body start,
        no_bracket body start,
        parse_value_white f g body hg,
        hv,
        hes,
      )
      refl
elements_step f false v es g body after rest hg start hv hes =
    unfold skip_space starts expect in rw (parse_value_white f g body hg, hv, hes) refl

put_new :
    (k : Text) (v : Json) (ms : Members) → get_member k ms ≡ none → put_first k v ms ≡ member k v ms
unfolding put_first
put_new k v ms h = rw h refl

quote_start : (k rest : Text) → StartsValue (quote k ++ rest)
unfolding quote
quote_start k rest = (refl, refl, refl)

pub members_step :
    (f : ℕ) (first : Bool) (k : Text) (v : Json) (ms : Members) (g w body after rest : Text)
    → All IsWhite g
    → All IsWhite w
    → All IsUnit k
    → get_member k ms ≡ none
    → parse_value f body ≡ ok (v, after)
    → parse_members f false after ≡ ok (ms, rest)
    → parse_members (suc f) first (comma_unless first ++ (g ++ (quote k ++ b':' ∷ (w ++ body))))
      ≡ ok (member k v ms, rest)
unfolding parse_members separator
members_step f true k v ms g w body after rest hg hw hk new hv hms =
    let start = quote_start k (b':' ∷ (w ++ body)) in
    rw
      (
        skip_white g _ hg,
        skip_start _ start,
        no_brace _ start,
        parse_name_white g _ hg,
        parse_name-quote k (w ++ body) hk,
        parse_value_white f w body hw,
        hv,
        hms,
        put_new k v ms new,
      )
      refl
members_step f false k v ms g w body after rest hg hw hk new hv hms =
    unfold skip_space starts expect in
    rw
      (
        parse_name_white g _ hg,
        parse_name-quote k (w ++ body) hk,
        parse_value_white f w body hw,
        hv,
        hms,
        put_new k v ms new,
      )
      refl

pub gap_unless-IsWhite : (first : Bool) (l : Layout) (d : ℕ) → All IsWhite (gap_unless first l d)
gap_unless-IsWhite true l d = tt
gap_unless-IsWhite false l d = gap-IsWhite l d

pub no_more :
    (g rest : Text) (first : Bool) (f : ℕ)
    → All IsWhite g
    → 1 < f
    → parse_elements f first ((g ++ b']' ∷ []) ++ rest) ≡ ok (end_elements, rest)
unfolding parse_elements starts
no_more g rest first zero hg k = absurd (omega arith)
no_more g rest first (suc f) hg k =
    rw (append_assoc g (b']' ∷ []) rest, skip_white g (b']' ∷ rest) hg) (unfold skip_space in refl)

pub no_more_members :
    (g rest : Text) (first : Bool) (f : ℕ)
    → All IsWhite g
    → 1 < f
    → parse_members f first ((g ++ b'}' ∷ []) ++ rest) ≡ ok (end_members, rest)
unfolding parse_members starts
no_more_members g rest first zero hg k = absurd (omega arith)
no_more_members g rest first (suc f) hg k =
    rw (append_assoc g (b'}' ∷ []) rest, skip_white g (b'}' ∷ rest) hg) (unfold skip_space in refl)

pub gap_bracket : (l : Layout) (d : ℕ) (rest : Text) → Closes ((gap l d ++ b']' ∷ []) ++ rest)
unfolding gap
gap_bracket compact d rest = inr (inl refl)
gap_bracket indented d rest = inr (inr (inr refl))

pub gap_brace : (l : Layout) (d : ℕ) (rest : Text) → Closes ((gap l d ++ b'}' ∷ []) ++ rest)
unfolding gap
gap_brace compact d rest = inr (inr (inl refl))
gap_brace indented d rest = inr (inr (inr refl))
