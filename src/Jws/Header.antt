-- ===== src/Jws/Header.antt =====
-- The protected header that `signJws` of src/jws.js makes.
use kxco_post_quantum.Prelude.{
  ◌≡◌, refl, ◌∙◌, Bool, true, false, ◌||◌, Option, none, some, All, arith, Text, codes, text_eq,
}
use kxco_post_quantum.Json.{Json, Members, string, member, get_member, has_own}
use kxco_post_quantum.Json.Quote.Laws.{IsUnit}
use kxco_post_quantum.Json.Canonical.{IsCanonical, MembersAreCanonical}
use kxco_post_quantum.Jws.Sign.{
  SignJwsOptions, has_reserved, optional_member, is_index, index_members, protected_header,
}
use kxco_post_quantum.Jws.Index.{
  absent_stays, canonical_part, get-append, index_part-IsIndexed, no_index, other_name,
  append-canonical, own_none,
}

abbrev UnitsIn : Option Text → Type 0
UnitsIn none = Unit {0}
UnitsIn (some s) = All IsUnit s

-- Options whose strings are code units and whose extra header is a JSON object that declares no
-- extension.
pub record IsPlain (opts : SignJwsOptions) : Type 0 where
  pub typ_units : UnitsIn opts.typ
  pub kid_units : UnitsIn opts.kid
  pub header_canonical : MembersAreCanonical opts.header
  pub no_crit : get_member (codes "crit") opts.header ≡ none
  pub no_b64 : get_member (codes "b64") opts.header ≡ none

abbrev pub json_text : Option Text → Option Json
json_text none = none
json_text (some s) = some (string s)

or_parts : (a b c : Bool) → (a || b || c) ≡ false → (a ≡ false) × (b ≡ false) × (c ≡ false)
or_parts a b c h = ground arith

reserved_absent :
    (ms : Members)
    → has_reserved ms ≡ false
    → (get_member (codes "alg") ms ≡ none)
      × (get_member (codes "kid") ms ≡ none)
      × (get_member (codes "typ") ms ≡ none)
unfolding has_reserved
reserved_absent ms h =
    let (a, b, c) =
      or_parts (has_own (codes "alg") ms) (has_own (codes "kid") ms) (has_own (codes "typ") ms) h in
    (own_none _ ms a, own_none _ ms b, own_none _ ms c)

-- The members behind the index names.
abbrev named : Text → Option Text → Option Text → Members → Members
named alg typ kid rest =
    member (codes "alg") (string alg)
      (optional_member (codes "typ") typ (optional_member (codes "kid") kid rest))

kid_canonical :
    (kid : Option Text) (rest : Members)
    → UnitsIn kid
    → get_member (codes "kid") rest ≡ none
    → MembersAreCanonical rest
    → MembersAreCanonical (optional_member (codes "kid") kid rest)
unfolding MembersAreCanonical IsCanonical
kid_canonical none rest u n h = h
kid_canonical (some s) rest u n h = (omega arith, n, u, h)

typ_canonical :
    (typ kid : Option Text) (rest : Members)
    → UnitsIn typ
    → get_member (codes "typ") rest ≡ none
    → MembersAreCanonical (optional_member (codes "kid") kid rest)
    → MembersAreCanonical
        (optional_member (codes "typ") typ (optional_member (codes "kid") kid rest))
unfolding MembersAreCanonical IsCanonical get_member
typ_canonical none kid rest u n h = h
typ_canonical (some s) none rest u n h = (omega arith, n, u, h)
typ_canonical (some s) (some t) rest u n h = (omega arith, n, u, h)

skip_named :
    (k : Text) (alg : Text) (typ kid : Option Text) (rest : Members)
    → text_eq (codes "alg") k ≡ false
    → text_eq (codes "typ") k ≡ false
    → text_eq (codes "kid") k ≡ false
    → get_member k (named alg typ kid rest) ≡ get_member k rest
unfolding get_member
skip_named k alg none none rest a t i = rw a refl
skip_named k alg (some x) none rest a t i = rw (a, t) refl
skip_named k alg none (some y) rest a t i = rw (a, i) refl
skip_named k alg (some x) (some y) rest a t i = rw (a, t, i) refl

alg_absent :
    (typ kid : Option Text) (rest : Members)
    → get_member (codes "alg") rest ≡ none
    → get_member
        (codes "alg")
        (optional_member (codes "typ") typ (optional_member (codes "kid") kid rest))
      ≡ none
unfolding get_member
alg_absent none none rest h = h
alg_absent none (some y) rest h = h
alg_absent (some x) none rest h = h
alg_absent (some x) (some y) rest h = h

not_index :
    (is_index (codes "alg") ≡ false)
    × (is_index (codes "typ") ≡ false)
    × (is_index (codes "kid") ≡ false)
unfolding is_index
not_index = (refl, refl, refl)

named_apart :
    (alg : Text) (typ kid : Option Text) (ms : Members) (k : Text)
    → is_index k ≡ true
    → get_member k (named alg typ kid (index_members false ms)) ≡ none
named_apart alg typ kid ms k i =
    let (a, t, d) = not_index in
    skip_named k alg typ kid _ (other_name _ k a i) (other_name _ k t i) (other_name _ k d i)
    ∙ no_index k ms i

-- The header survives the text.
pub protected_header-canonical :
    (alg : Text) (opts : SignJwsOptions)
    → All IsUnit alg
    → IsPlain opts
    → has_reserved opts.header ≡ false
    → MembersAreCanonical (protected_header alg opts)
unfolding protected_header MembersAreCanonical IsCanonical
protected_header-canonical alg opts units plain h =
    let (a, k, t) = reserved_absent opts.header h in
    let rest = canonical_part false opts.header plain.header_canonical in
    append-canonical (index_members true opts.header)
      (named alg opts.typ opts.kid (index_members false opts.header))
      (index_part-IsIndexed opts.header) (named_apart alg opts.typ opts.kid opts.header)
      (canonical_part true opts.header plain.header_canonical)
      (
        omega arith,
        alg_absent opts.typ opts.kid _ (absent_stays false _ opts.header a),
        units,
        typ_canonical opts.typ opts.kid _ plain.typ_units (absent_stays false _ opts.header t)
            (kid_canonical opts.kid _ plain.kid_units (absent_stays false _ opts.header k) rest),
      )

kid_read :
    (alg : Text) (typ kid : Option Text) (rest : Members)
    → get_member (codes "kid") rest ≡ none
    → get_member (codes "kid") (named alg typ kid rest) ≡ json_text kid
unfolding get_member
kid_read alg none none rest h = h
kid_read alg none (some y) rest h = refl
kid_read alg (some x) none rest h = h
kid_read alg (some x) (some y) rest h = refl

-- What the header says of the members that the verifier looks at.
pub protected_header_members :
    (alg : Text) (opts : SignJwsOptions)
    → IsPlain opts
    → has_reserved opts.header ≡ false
    → (get_member (codes "alg") (protected_header alg opts) ≡ some (string alg))
      × (get_member (codes "kid") (protected_header alg opts) ≡ json_text opts.kid)
      × (get_member (codes "crit") (protected_header alg opts) ≡ none)
      × (get_member (codes "b64") (protected_header alg opts) ≡ none)
unfolding protected_header
protected_header_members alg opts plain h =
    let (a, k, t) = reserved_absent opts.header h in
    (
      get-append _ _ _ (absent_stays true _ opts.header a) ∙ unfold get_member in refl,
      get-append _ _ _ (absent_stays true _ opts.header k)
          ∙ kid_read alg opts.typ opts.kid _ (absent_stays false _ opts.header k),
      get-append _ _ _ (absent_stays true _ opts.header plain.no_crit)
          ∙ skip_named (codes "crit") alg opts.typ opts.kid _ refl refl refl
          ∙ absent_stays false _ opts.header plain.no_crit,
      get-append _ _ _ (absent_stays true _ opts.header plain.no_b64)
          ∙ skip_named (codes "b64") alg opts.typ opts.kid _ refl refl refl
          ∙ absent_stays false _ opts.header plain.no_b64,
    )
