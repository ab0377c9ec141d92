-- ===== src/Jws/Verify/Laws.antt =====
-- What a token that `verifyJws` of src/jws.js calls valid has passed.
use kxco_post_quantum.Prelude.{
  ◌≡◌, refl, sym, ap, ◌∙◌, Bool, true, Bool-cases, inl, inr, ◌∷◌, ◌++◌, Option, none, some, ◌==◌,
  ==_iff, length, Text, Bytes, codes, text_eq, text_eq_iff, Result, ok, err, require, require_some,
  required, ok-injective, >>=-eq-ok,
}
use mathlib.Core.Path.{subst}
use kxco_post_quantum.Value.{u8, text}
use kxco_post_quantum.Context.{absent}
use kxco_post_quantum.Codec.Utf8.{utf8}
use kxco_post_quantum.Codec.Utf8.Decode.{text_decode}
use kxco_post_quantum.Codec.Hex.{bytes_to_hex}
use kxco_post_quantum.Codec.Base64.{Runtime, b64url}
use kxco_post_quantum.Json.{Json, Members, string, object, get_member}
use kxco_post_quantum.Json.Parse.{parse}
use kxco_post_quantum.Signature.{verify}
use kxco_post_quantum.Jws.{
  JwsAlgorithm, ml_dsa_65, ml_dsa_87, JwsModules, jws_spec, setup_of, algorithm_for,
  algorithm_for_member,
}
use kxco_post_quantum.Jws.Segments.{Parts, strict_b64url, split_on, three_parts, dot, signing_text}
use kxco_post_quantum.Jws.Segments.Laws.{split_on-three, some_required, strict_b64url-b64url}
use kxco_post_quantum.Jws.Verify.{
  VerifyJwsOptions, VerifiedJws, JwsKey, key_bytes, Invalid, valid, segment, json_header,
  members_of, matches_option, is_absent, or_false, check_header, check_signature, check_parts,
  check_token, verdict, verify_jws, unsupported_alg, alg_mismatch, kid_mismatch, declares_crit,
  declares_b64, wrong_key_length, wrong_signature_length, header_not_an_object, not_three_segments,
}

-- What an option asks of a member: nothing where it is not given, else to be that string.
abbrev pub Agrees : Option Text → Option Json → Type 0
Agrees none v = Unit {0}
Agrees (some s) v = v ≡ some (string s)

-- The header declares the algorithm, agrees with the options, and declares no extension.
abbrev pub HeaderAccepted : VerifyJwsOptions → Members → JwsAlgorithm → Type 0
HeaderAccepted opts ms a =
    (get_member (codes "alg") ms ≡ some (string (jws_spec a).name))
    × Agrees opts.alg (get_member (codes "alg") ms)
    × Agrees opts.kid (get_member (codes "kid") ms)
    × (get_member (codes "crit") ms ≡ none)
    × (get_member (codes "b64") ms ≡ none)

-- The key and the signature have the lengths of the algorithm, and its module verifies.
abbrev pub SignatureAccepted :
    JwsModules → JwsAlgorithm → Bytes → (protected payload : Text) → Bytes → Type 0
SignatureAccepted m a public_key protected payload signature =
    (length public_key ≡ (jws_spec a).public_key_bytes)
    × (length signature ≡ (jws_spec a).signature_bytes)
    × (verify (setup_of m a) public_key (u8 (utf8 (signing_text protected payload)))
          (text (bytes_to_hex signature)) absent
        ≡ ok true)

abbrev pub Accepted : Runtime → JwsModules → Text → Bytes → VerifyJwsOptions → VerifiedJws → Type 0
Accepted rt m token public_key opts v =
    (header_bytes : Bytes) × (signature : Bytes) × (a : JwsAlgorithm) × (token
      ≡ b64url rt header_bytes ++ dot ∷ (b64url rt v.payload ++ dot ∷ b64url rt signature))
    × (parse (text_decode header_bytes) ≡ ok (object v.header))
    × HeaderAccepted opts v.header a
    × SignatureAccepted m a public_key (b64url rt header_bytes) (b64url rt v.payload) signature
    × (v.text ≡ text_decode v.payload)

pub algorithm_for-name :
    (alg : Text) (a : JwsAlgorithm) → algorithm_for alg ≡ some a → alg ≡ (jws_spec a).name
unfolding algorithm_for
algorithm_for-name alg a h = elim (Bool-cases (text_eq (jws_spec ml_dsa_65).name alg)) [
  | inl e ↦ named ml_dsa_65 e (rw e at h)
  | inr e ↦ elim (Bool-cases (text_eq (jws_spec ml_dsa_87).name alg)) [
    | inl e' ↦ named ml_dsa_87 e' (rw (e, e') at h)
    | inr e' ↦ absurd (nothing (rw (e, e') at h))
  ]
]
  where
    nothing : ◌≡◌ {A = Option JwsAlgorithm} none (some a) → ⊥
    nothing p = cc

    named :
        (b : JwsAlgorithm)
        → text_eq (jws_spec b).name alg ≡ true
        → ◌≡◌ {A = Option JwsAlgorithm} (some b) (some a)
        → alg ≡ (jws_spec a).name
    named b e p = subst (λ x. alg ≡ (jws_spec x).name) (cc) (sym ((text_eq_iff _ _).0 e))

member-name :
    (v : Option Json) (a : JwsAlgorithm)
    → algorithm_for_member v ≡ some a
    → v ≡ some (string (jws_spec a).name)
unfolding algorithm_for_member
member-name (some (string alg)) a h = ap (λ t. some (string t)) (algorithm_for-name alg a h)
member-name none a h = cc
member-name (some _) a h = cc

segment-ok : (r : Result _ Bytes) (bs : Bytes) → segment r ≡ ok bs → r ≡ ok bs
segment-ok (ok b) bs h = cc
segment-ok (err e) bs h = cc

json_header-ok : (r : Result _ Json) (v : Json) → json_header r ≡ ok v → r ≡ ok v
json_header-ok (ok b) bs h = cc
json_header-ok (err e) bs h = cc

object_of :
    (v : Json) (e : Invalid) (ms : Members) → require_some (members_of v) e ≡ ok ms → v ≡ object ms
object_of (object ns) e ms h = cc
object_of _ e ms h = cc

pub verdict-valid :
    (r : Result Invalid VerifiedJws) (v : VerifiedJws) → verdict r ≡ valid v → r ≡ ok v
verdict-valid (ok w) v h = cc
verdict-valid (err e) v h = cc

absent_of : (v : Option Json) → is_absent v ≡ true → v ≡ none
absent_of none h = refl
absent_of (some v) h = cc

agreed : (o : Option Text) (v : Option Json) → matches_option o v ≡ true → Agrees o v
agreed none v h = tt
agreed (some s) (some (string t)) h = ap (λ x. some (string x)) ((text_eq_iff t s).0 h)
agreed (some s) none h = cc
agreed (some s) (some _) h = cc

verified {ε} : {E : Type ε} (r : Result E Bool) → or_false r ≡ true → r ≡ ok true
verified (ok b) h = ap ok h
verified (err e) h = cc

check_header-Accepted :
    (opts : VerifyJwsOptions) (ms : Members) (a : JwsAlgorithm)
    → check_header opts ms ≡ ok a
    → HeaderAccepted opts ms a
unfolding check_header
check_header-Accepted opts ms a h =
    let (b, found, h1) =
      >>=-eq-ok (require_some (algorithm_for_member (get_member (codes "alg") ms)) unsupported_alg)
        _ h in
    let (_, alg, h2) =
      >>=-eq-ok (require (matches_option opts.alg (get_member (codes "alg") ms)) alg_mismatch) _
        h1 in
    let (_, kid, h3) =
      >>=-eq-ok (require (matches_option opts.kid (get_member (codes "kid") ms)) kid_mismatch) _
        h2 in
    let (_, crit, h4) =
      >>=-eq-ok (require (is_absent (get_member (codes "crit") ms)) declares_crit) _ h3 in
    let (_, b64, h5) =
      >>=-eq-ok (require (is_absent (get_member (codes "b64") ms)) declares_b64) _ h4 in
    (
      subst (λ x. get_member (codes "alg") ms ≡ some (string (jws_spec x).name)) (ok-injective h5)
          (member-name _ b (some_required _ _ b found)),
      agreed _ _ (required _ _ alg),
      agreed _ _ (required _ _ kid),
      absent_of _ (required _ _ crit),
      absent_of _ (required _ _ b64),
    )

check_signature-Accepted :
    (m : JwsModules) (a : JwsAlgorithm) (public_key : Bytes) (parts : Parts) (signature : Bytes)
    (u : Unit {0})
    → check_signature m a public_key parts signature ≡ ok u
    → SignatureAccepted m a public_key parts.protected parts.payload signature
unfolding check_signature
check_signature-Accepted m a public_key parts signature u h =
    let (_, key, h1) =
      >>=-eq-ok (require (length public_key == (jws_spec a).public_key_bytes) wrong_key_length) _
        h in
    let (_, sized, h2) =
      >>=-eq-ok (require (length signature == (jws_spec a).signature_bytes) wrong_signature_length)
        _ h1 in
    (
      (==_iff _ _).0 (required _ _ key),
      (==_iff _ _).0 (required _ _ sized),
      verified _ (required _ _ h2),
    )

assembled :
    (rt : Runtime) (m : JwsModules) (p q s header_bytes payload signature : Bytes)
    (a : JwsAlgorithm) (ms : Members) (public_key : Bytes) (opts : VerifyJwsOptions)
    → p ≡ b64url rt header_bytes
    → q ≡ b64url rt payload
    → s ≡ b64url rt signature
    → parse (text_decode header_bytes) ≡ ok (object ms)
    → HeaderAccepted opts ms a
    → SignatureAccepted m a public_key p q signature
    → Accepted rt m
        (p ++ dot ∷ (q ++ dot ∷ s))
        public_key
        opts
        (record { header = ms; payload = payload; text = text_decode payload })
assembled rt m p q s hb pb sb a ms public_key opts c1 c2 c3 parsed header accepted = (
  hb,
  sb,
  a,
  rw (c1, c2, c3) refl,
  parsed,
  header,
  subst (λ x. SignatureAccepted m a public_key x (b64url rt pb) sb) c1
      (subst (λ y. SignatureAccepted m a public_key p y sb) c2 accepted),
  refl,
)

check_parts-Accepted :
    (rt : Runtime) (m : JwsModules) (parts : Parts) (public_key : Bytes) (opts : VerifyJwsOptions)
    (v : VerifiedJws)
    → check_parts rt m parts public_key opts ≡ ok v
    → Accepted rt m
        (parts.protected ++ dot ∷ (parts.payload ++ dot ∷ parts.signature))
        public_key
        opts
        v
unfolding check_parts
check_parts-Accepted rt m parts public_key opts v h =
    let (hb, r1, h1) = >>=-eq-ok (segment (strict_b64url rt parts.protected)) _ h in
    let (json, r2, h2) = >>=-eq-ok (json_header (parse (text_decode hb))) _ h1 in
    let (pb, r3, h3) = >>=-eq-ok (segment (strict_b64url rt parts.payload)) _ h2 in
    let (sb, r4, h4) = >>=-eq-ok (segment (strict_b64url rt parts.signature)) _ h3 in
    let (ms, r5, h5) = >>=-eq-ok (require_some (members_of json) header_not_an_object) _ h4 in
    let (a, r6, h6) = >>=-eq-ok (check_header opts ms) _ h5 in
    let (u, r7, h7) = >>=-eq-ok (check_signature m a public_key parts sb) _ h6 in
    let (c1, _) = strict_b64url-b64url rt parts.protected hb (segment-ok _ hb r1) in
    let (c2, _) = strict_b64url-b64url rt parts.payload pb (segment-ok _ pb r3) in
    let (c3, _) = strict_b64url-b64url rt parts.signature sb (segment-ok _ sb r4) in
    subst
      (Accepted rt m (parts.protected ++ dot ∷ (parts.payload ++ dot ∷ parts.signature)) public_key
        opts)
      (ok-injective h7)
      (assembled rt m parts.protected parts.payload parts.signature hb pb sb a ms public_key opts c1
        c2 c3 (json_header-ok _ json r2 ∙ ap ok (object_of json _ ms r5))
        (check_header-Accepted opts ms a r6)
        (check_signature-Accepted m a public_key parts sb u r7))

-- A token that is called valid is, character for character, the base64url of a header, of the payload
-- returned and of a signature, joined by dots. The header is the JSON object returned; it names an
-- algorithm of the table, agrees with the `alg` and the `kid` asked for, and declares neither `crit` nor
-- `b64`. The key and the signature have the lengths of that algorithm, whose module verifies the
-- signature on the first two segments as they stand. The text returned is the payload's.
pub verify_jws-Accepted :
    (rt : Runtime) (m : JwsModules) (token : Text) (public_key : JwsKey) (opts : VerifyJwsOptions)
    (v : VerifiedJws)
    → verify_jws rt m (text token) public_key (some opts) ≡ ok (valid v)
    → Accepted rt m token (key_bytes public_key) opts v
unfolding verify_jws check_token
verify_jws-Accepted rt m token public_key opts v h =
    let checked = verdict-valid _ v (ok-injective h) in
    let (parts, split, h1) =
      >>=-eq-ok (require_some (three_parts (split_on dot token)) not_three_segments) _ checked in
    rw (split_on-three dot token parts (some_required _ _ parts split))
      (check_parts-Accepted rt m parts (key_bytes public_key) opts v h1)
