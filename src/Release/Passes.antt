-- ===== src/Release/Passes.antt =====
-- What the integrity test of src/fips/index.js needs to pass, and the texts that it reads.
use kxco_post_quantum.Prelude.{
  ℕ, ◌≡◌, refl, sym, ap, ◌∙◌, Bool, true, false, not, ◌&&◌, Bool-cases, inl, inr, List, [], ◌∷◌,
  ◌++◌, Option, none, some, all, All, arith, Text, Bytes, IsByte, codes, text_eq, text_eq_iff,
  text_eq_comm, ok,
}
use mathlib.Core.Path.{subst}
use kxco_post_quantum.Codec.Hex.{bytes_to_hex, is_hex, hex_to_bytes}
use kxco_post_quantum.Codec.Hex.Laws.{bytes_to_hex-all_hex}
use kxco_post_quantum.Codec.Trim.{trim}
use kxco_post_quantum.Codec.Trim.Laws.{IsSolid, trim_line}
use kxco_post_quantum.Codec.Utf8.{utf8, IsAscii}
use kxco_post_quantum.Codec.Utf8.Decode.{decode_from, text_decode}
use kxco_post_quantum.Codec.Utf8.Decode.RoundTrip.{
  WellFormed, WellFormed-append, decode_from-utf8, text_decode-utf8,
}
use kxco_post_quantum.Json.{Json, Members, string, object, end_members, member, get_member}
use kxco_post_quantum.Json.Quote.Laws.{IsUnit}
use kxco_post_quantum.Json.Quote.WellFormed.{ascii-WellFormed}
use kxco_post_quantum.Json.Print.{indented, write, write_members, stringify_indented}
use kxco_post_quantum.Json.Parse.{parse}
use kxco_post_quantum.Json.RoundTrip.{parse-stringify_indented}
use kxco_post_quantum.Json.Written.{stringify_indented-WellFormed}
use kxco_post_quantum.Json.Canonical.{IsCanonical, MembersAreCanonical}
use kxco_post_quantum.Fips.Files.{Entries, Found, files_in, read_file}
use kxco_post_quantum.Fips.Integrity.{
  Trust, manifest_name, signature_name, files_member, present, includes, check_files,
  integrity_test,
}
use kxco_post_quantum.Release.Tree.{is_listed}
use kxco_post_quantum.Release.Manifest.{version_then, manifest_of, manifest_bytes}

hex_kinds : (c : ℕ) → is_hex c ≡ true → (IsAscii c) × (IsSolid c) × (IsUnit c)
unfolding is_hex
hex_kinds c h = (ground arith, ground arith, ground arith)

both : (a b : Bool) → (a && b) ≡ true → (a ≡ true) × (b ≡ true)
both a b h = ground arith

-- Hexadecimal text is ASCII without spaces.
hex_texts : (s : Text) → all is_hex s ≡ true → (All IsAscii s) × (All IsSolid s) × (All IsUnit s)
hex_texts [] h = (tt, tt, tt)
hex_texts (c ∷ s) h =
    let (first, rest) = both (is_hex c) (all is_hex s) h in
    let (a, b, u) = hex_kinds c first in
    let (as', bs, us) = hex_texts s rest in ((a, as'), (b, bs), (u, us))

pub hex-units : (bs : Bytes) → All IsByte bs → All IsUnit (bytes_to_hex bs)
hex-units bs h = (hex_texts _ (bytes_to_hex-all_hex bs h)).2

read_all_hex : (s : Text) (bs : Bytes) → hex_to_bytes s ≡ ok bs → all is_hex s ≡ true
unfolding hex_to_bytes
read_all_hex s bs h = ground arith

-- A line of hexadecimal text reads back from its file.
pub hex_line :
    (s : Text) (bs : Bytes)
    → hex_to_bytes s ≡ ok bs
    → hex_to_bytes (trim (decode_from none (utf8 (s ++ b'\n' ∷ [])))) ≡ ok bs
hex_line s bs h =
    let (ascii, solid, units) = hex_texts s (read_all_hex s bs h) in
    ap (λ x. hex_to_bytes (trim x))
      (decode_from-utf8 (s ++ b'\n' ∷ []) (
        WellFormed-append (ascii-WellFormed s ascii) (ascii-WellFormed (b'\n' ∷ []) (omega arith))))
    ∙ ap hex_to_bytes (trim_line s solid)
    ∙ h

-- An object written as a file with indentation reads back.
pub object_file :
    (ms : Members)
    → MembersAreCanonical ms
    → parse (text_decode (manifest_bytes (object ms))) ≡ ok (object ms)
object_file ms h = ap parse decoded ∙ parse-stringify_indented (object ms) canonical
  where
    canonical : IsCanonical (object ms)
    canonical = unfold IsCanonical in h

    starts_so :
        stringify_indented (object ms) ++ b'\n' ∷ []
        ≡ b'{' ∷ (write_members indented 0 true ms ++ b'\n' ∷ [])
    starts_so = unfold stringify_indented write in refl

    formed : WellFormed (stringify_indented (object ms) ++ b'\n' ∷ [])
    formed =
        WellFormed-append (stringify_indented-WellFormed (object ms) canonical)
          (ascii-WellFormed (b'\n' ∷ []) (omega arith))

    decoded :
        text_decode (manifest_bytes (object ms)) ≡ stringify_indented (object ms) ++ b'\n' ∷ []
    decoded =
        subst (λ x. text_decode (utf8 x) ≡ x) (sym starts_so)
          (text_decode-utf8 b'{' (write_members indented 0 true ms ++ b'\n' ∷ []) (omega arith)
            (subst WellFormed starts_so formed))

-- A version that survives the text, if there is one.
abbrev pub VersionIsCanonical : Option Json → Type 0
VersionIsCanonical none = Unit {0}
VersionIsCanonical (some v) = IsCanonical v

module _ (version : Option Json) (files : Members) where
  pub manifest_of-members :
      VersionIsCanonical version
      → MembersAreCanonical files
      → (ms : Members) × (manifest_of version files ≡ object ms) × MembersAreCanonical ms
  unfolding manifest_of MembersAreCanonical IsCanonical
  manifest_of-members hv h = (_, refl, shown version hv)
    where
      shown :
          (v : Option Json)
          → VersionIsCanonical v
          → MembersAreCanonical (
              member
                (codes "module")
                (string (codes "kxco-post-quantum/fips"))
                (version_then v (member (codes "files") (object files) end_members)))
      shown none p = (
        omega arith,
        unfold get_member in refl,
        omega arith,
        (omega arith, unfold get_member in refl, h, tt),
      )
      shown (some v) p = (
        omega arith,
        unfold get_member in refl,
        omega arith,
        (
          omega arith,
          unfold get_member in refl,
          p,
          (omega arith, unfold get_member in refl, h, tt),
        ),
      )

  pub files_member-manifest_of : files_member (manifest_of version files) ≡ ok (some (object files))
  unfolding files_member manifest_of get_member
  files_member-manifest_of = ap ok (found version)
    where
      found :
          (v : Option Json)
          → ◌≡◌ {A = Option Json}
              (get_member
                (codes "files")
                (version_then v (member (codes "files") (object files) end_members)))
              (some (object files))
      found none = refl
      found (some v) = refl

pub integrity_test-passes :
    (t : Trust) (dir : Entries) (manifest : Json) (bytes signature key : Bytes) (sig : Text)
    → read_file manifest_name (files_in [] dir) ≡ some bytes
    → read_file signature_name (files_in [] dir) ≡ some (utf8 (sig ++ b'\n' ∷ []))
    → hex_to_bytes sig ≡ ok signature
    → hex_to_bytes t.release_key ≡ ok key
    → t.ml_dsa_verify signature bytes key ≡ some true
    → parse (text_decode bytes) ≡ ok manifest
    → check_files t (files_in [] dir) manifest ≡ ok tt
    → integrity_test t dir ≡ ok manifest
unfolding integrity_test
integrity_test-passes t dir manifest bytes signature key sig found beside read own good json files =
    rw (found, beside, hex_line sig signature read, own, good, json, files) refl

present-All : (fs : List Found) → All (λ f. is_listed f ≡ true) (present fs)
unfolding present
present-All [] = tt
present-All (g ∷ fs) = elim (Bool-cases (is_listed g.path)) [
  | inl e ↦ rw e (e, present-All fs)
  | inr e ↦ rw e (present-All fs)
]

included_has :
    (P : Text → Type 0) (f : Text) (gs : List Text) → All P gs → includes gs f ≡ true → P f
included_has P f [] h i = cc
included_has P f (g ∷ gs) (h, hs) i = elim (Bool-cases (text_eq g f)) [
  | inl e ↦ subst P ((text_eq_iff g f).0 e) h
  | inr e ↦ included_has P f gs hs (rw e at i)
]

neither : (a b : Bool) → (not a && not b) ≡ true → (a ≡ false) × (b ≡ false)
neither a b h = ground arith

-- The paths of the walk are none of the two names that are left out.
pub present-listed :
    (f : Text) (fs : List Found)
    → includes (present fs) f ≡ true
    → (text_eq manifest_name f ≡ false) × (text_eq signature_name f ≡ false)
present-listed f fs h =
    let listed = included_has (λ x. is_listed x ≡ true) f (present fs) (present-All fs) h in
    let (m, s) = neither (text_eq f manifest_name) (text_eq f signature_name) listed in
    (text_eq_comm manifest_name f ∙ m, text_eq_comm signature_name f ∙ s)
