-- ===== src/Json/Typed.antt =====
-- What `JSON.parse` returns is a value of strings of code units, number literals and objects without
-- repeated names.
use kxco_post_quantum.Prelude.{
  ℕ, zero, suc, ◌+◌, ◌*◌, ◌≡◌, refl, Bool, true, false, Bool-cases, Option-cases, inl, inr, [], ◌∷◌,
  none, some, ◌==◌, if◌then◌else◌, length, All, Text, text_eq, Result, ok, err, ◌>>=◌,
}
use mathlib.Core.Path.{subst}
use kxco_post_quantum.Json.{
  Json, Elements, Members, string, array, object, number, element, end_members, member, get_member,
}
use kxco_post_quantum.Json.Quote.Laws.{IsUnit}
use kxco_post_quantum.Json.Scan.{ParseError, Parsed, skip_space, expect, starts, plain, string_loop}
use kxco_post_quantum.Json.Parse.{
  remove_member, put_first, literal, parse_lead, separator, parse_name, parse_value, parse_elements,
  parse_members, parse, finish_parse,
}
use kxco_post_quantum.Json.Tokens.{IsNumber}
use kxco_post_quantum.Json.Canonical.{IsCanonical, AreCanonical, MembersAreCanonical}
use kxco_post_quantum.Json.Reads.{
  Reads, RestReads, Reads-then, RestReads-then, map_parsed-Reads, skip_space-units, tail-units,
  expect-RestReads, separator-RestReads, string_loop-Reads, number_loop-Reads,
}

still_absent :
    (j k : Text) (ms : Members) → get_member j ms ≡ none → get_member j (remove_member k ms) ≡ none
unfolding get_member remove_member
still_absent j k end_members h = refl
still_absent j k (member i v ms) h = elim (Bool-cases (text_eq i j)) [
  | inl e ↦ cc (rw e at h)
  | inr e ↦ elim (Bool-cases (text_eq i k)) [
    | inl e' ↦ rw e' (still_absent j k ms (rw e at h))
    | inr e' ↦ rw (e', e) (still_absent j k ms (rw e at h))
  ]
]

removed : (k : Text) (ms : Members) → get_member k (remove_member k ms) ≡ none
unfolding get_member remove_member
removed k end_members = refl
removed k (member i v ms) = elim (Bool-cases (text_eq i k)) [
  | inl e ↦ rw e (removed k ms)
  | inr e ↦ rw (e, e) (removed k ms)
]

remove-canonical :
    (k : Text) (ms : Members) → MembersAreCanonical ms → MembersAreCanonical (remove_member k ms)
unfolding remove_member MembersAreCanonical
remove-canonical k end_members h = tt
remove-canonical k (member i v ms) (hi, new, hv, hms) = elim (Bool-cases (text_eq i k)) [
  | inl e ↦ rw e (remove-canonical k ms hms)
  | inr e ↦ rw e (hi, still_absent i k ms new, hv, remove-canonical k ms hms)
]

pub found-IsCanonical :
    (k : Text) (v : Json) (ms : Members)
    → get_member k ms ≡ some v
    → MembersAreCanonical ms
    → IsCanonical v
unfolding get_member MembersAreCanonical
found-IsCanonical k v end_members e h = cc
found-IsCanonical k v (member i w ms) e (hi, new, hw, hms) = elim (Bool-cases (text_eq i k)) [
  | inl same ↦ subst IsCanonical (some_same (rw same at e)) hw
  | inr other ↦ found-IsCanonical k v ms (rw other at e) hms
]
  where
    some_same : {a b : Json} → some a ≡ some b → a ≡ b
    some_same p = cc

put_first-canonical :
    (k : Text) (v : Json) (ms : Members)
    → All IsUnit k
    → IsCanonical v
    → MembersAreCanonical ms
    → MembersAreCanonical (put_first k v ms)
unfolding put_first MembersAreCanonical
put_first-canonical k v ms hk hv h = elim (Option-cases (get_member k ms)) [
  | inl e ↦ rw e (hk, e, hv, h)
  | inr (w, e) ↦ rw e (hk, removed k ms, found-IsCanonical k w ms e h, remove-canonical k ms h)
]

either {ℓ} :
    {A : Type ℓ} (P : A → Type 0) (b : Bool) (x y : Parsed A)
    → Reads P x
    → Reads P y
    → Reads P (if b then x else y)
either P true x y hx hy = hx
either P false x y hx hy = hy

literal-Reads :
    (p : Text) (v : Json) (s : Text)
    → IsCanonical v
    → All IsUnit s
    → Reads IsCanonical (literal p v s)
literal-Reads p v s hv h =
    RestReads-then IsCanonical (expect p s) (λ rest. ok (v, rest)) (expect-RestReads p s h)
      (λ t ht. (hv, ht))

parse_lead-Reads :
    (elements : Text → Parsed Elements) (members : Text → Parsed Members) (s : Text)
    → All IsUnit s
    → ((t : Text) → All IsUnit t → Reads AreCanonical (elements t))
    → ((t : Text) → All IsUnit t → Reads MembersAreCanonical (members t))
    → Reads IsCanonical (parse_lead elements members s)
unfolding parse_lead IsCanonical
parse_lead-Reads elements members [] h he hm = tt
parse_lead-Reads elements members (c ∷ s) (hc, hs) he hm =
    either IsCanonical (c == b'"') _ _
      (map_parsed-Reads string (All IsUnit) IsCanonical _ (λ t ht. ht)
        (string_loop-Reads plain s tt hs))
      (either IsCanonical (c == b'[') _ _
        (map_parsed-Reads array AreCanonical IsCanonical _ (λ es hes. hes) (he s hs))
        (either IsCanonical (c == b'{') _ _
          (map_parsed-Reads object MembersAreCanonical IsCanonical _ (λ ms hms. hms) (hm s hs))
          (either IsCanonical (c == b'n') _ _ (literal-Reads _ _ _ tt (hc, hs)) (
            either IsCanonical (c == b't') _ _ (literal-Reads _ _ _ tt (hc, hs)) (
              either IsCanonical (c == b'f') _ _ (literal-Reads _ _ _ tt (hc, hs)) (
                map_parsed-Reads number IsNumber IsCanonical _ (λ n hn. hn)
                  (number_loop-Reads (c ∷ s) (hc, hs))))))))

skip_expect : (p s : Text) → All IsUnit s → RestReads (expect p (skip_space s))
skip_expect p s h = expect-RestReads p (skip_space s) (skip_space-units s h)

parse_name-Reads : (s : Text) → All IsUnit s → Reads (All IsUnit) (parse_name s)
unfolding parse_name
parse_name-Reads s h =
    RestReads-then (All IsUnit) (expect (b'"' ∷ []) (skip_space s)) _ (skip_expect _ s h) (λ t ht.
      Reads-then (All IsUnit) (All IsUnit) (string_loop plain t) _ (string_loop-Reads plain t tt ht)
        (λ k u hk hu.
          RestReads-then (All IsUnit) (expect (b':' ∷ []) (skip_space u)) (λ w. ok (k, w))
            (skip_expect _ u hu) (λ w hw. (hk, hw))))

abbrev ValueReads : ℕ → Type 0
ValueReads f = (s : Text) → All IsUnit s → Reads IsCanonical (parse_value f s)

abbrev ElementsRead : ℕ → Type 0
ElementsRead f =
    (first : Bool) (s : Text) → All IsUnit s → Reads AreCanonical (parse_elements f first s)

abbrev MembersRead : ℕ → Type 0
MembersRead f =
    (first : Bool) (s : Text) → All IsUnit s → Reads MembersAreCanonical (parse_members f first s)

value_reads : (f : ℕ) → ElementsRead f → MembersRead f → ValueReads (suc f)
unfolding parse_value
value_reads f he hm s h =
    parse_lead-Reads (parse_elements f true) (parse_members f true) (skip_space s)
      (skip_space-units s h) (he true) (hm true)

elements_read : (f : ℕ) → ValueReads f → ElementsRead f → ElementsRead (suc f)
unfolding parse_elements AreCanonical
elements_read f hv he first s h =
    either AreCanonical (starts b']' (skip_space s)) _ _ (tt, tail-units _ (skip_space-units s h))
      (RestReads-then AreCanonical (separator first s) _ (separator-RestReads first s h) (λ t ht.
        Reads-then IsCanonical AreCanonical (parse_value f t) _ (hv t ht) (λ v u hc hu.
          Reads-then AreCanonical AreCanonical (parse_elements f false u)
            (λ es w. ok (element v es, w)) (he false u hu) (λ es w hes hw. ((hc, hes), hw)))))

members_read : (f : ℕ) → ValueReads f → MembersRead f → MembersRead (suc f)
unfolding parse_members MembersAreCanonical
members_read f hv hm first s h =
    either MembersAreCanonical (starts b'}' (skip_space s)) _ _
      (tt, tail-units _ (skip_space-units s h))
      (RestReads-then MembersAreCanonical (separator first s) _ (separator-RestReads first s h)
        (λ t ht.
          Reads-then (All IsUnit) MembersAreCanonical (parse_name t) _ (parse_name-Reads t ht)
            (λ k u hk hu.
              Reads-then IsCanonical MembersAreCanonical (parse_value f u) _ (hv u hu) (λ v w hc hw.
                Reads-then MembersAreCanonical MembersAreCanonical (parse_members f false w)
                  (λ ms x. ok (put_first k v ms, x)) (hm false w hw)
                  (λ ms x hms hx. (put_first-canonical k v ms hk hc hms, hx))))))

all_read : (f : ℕ) → ValueReads f × ElementsRead f × MembersRead f
unfolding parse_value parse_elements parse_members
all_read zero = (λ s h. tt, λ first s h. tt, λ first s h. tt)
all_read (suc f) =
    let (hv, he, hm) = all_read f in
    (value_reads f he hm, elements_read f hv he, members_read f hv hm)

finished :
    (r : Parsed Json) (v : Json)
    → Reads IsCanonical r
    → (r >>= λ p. finish_parse p.0 (skip_space p.1)) ≡ ok v
    → IsCanonical v
finished (err e) v h p = cc
finished (ok (w, rest)) v (hw, hr) p = ended (skip_space rest) p
  where
    ended : (t : Text) → finish_parse w t ≡ ok v → IsCanonical v
    ended [] q = subst IsCanonical (same q) hw
      where
        same : ◌≡◌ {A = Result ParseError Json} (ok w) (ok v) → w ≡ v
        same q = cc
    ended (c ∷ t) q = cc

-- From a text of code units `JSON.parse` returns nothing but a value whose strings are code units at
-- every depth, whose numbers are literals of the grammar and whose objects have no name twice.
pub parse-IsCanonical : (s : Text) (v : Json) → All IsUnit s → parse s ≡ ok v → IsCanonical v
unfolding parse
parse-IsCanonical s v h e =
    finished (parse_value (2 * length s + 1) s) v ((all_read (2 * length s + 1)).0 s h) e
