-- ===== src/Fips/Integrity/Laws.antt =====
-- What the integrity test of src/fips/index.js has seen where it passes.
use kxco_post_quantum.Prelude.{
  ◌≡◌, ap, ◌∙◌, Bool, true, ◌&&◌, List, [], ◌∷◌, Option, none, some, All, Text, Bytes, text_eq_iff,
  Result, ok, err, require, require_some, required, ok-injective, >>=-eq-ok, arith,
}
use mathlib.Core.Path.{subst}
use kxco_post_quantum.Codec.Trim.{trim}
use kxco_post_quantum.Codec.Hex.{HexError, bytes_to_hex, hex_to_bytes}
use kxco_post_quantum.Codec.Utf8.Decode.{decode_from, text_decode}
use kxco_post_quantum.Json.{Json, Members, string, end_members, member}
use kxco_post_quantum.Json.Scan.{ParseError}
use kxco_post_quantum.Json.Parse.{parse}
use kxco_post_quantum.Jws.Segments.Laws.{some_required}
use kxco_post_quantum.Fips.Files.{Entries, Found, files_in, read_file}
use kxco_post_quantum.Fips.Integrity.{
  Trust, no_signed_manifest, verify_threw, signature_invalid, files_differ, unreadable,
  digest_mismatch, manifest_name, signature_name, read_hex, read_json, files_member, listed_members,
  has_own_file, present, none_missing, none_extra, is_text_of, check_digests, check_files,
  integrity_test,
}

-- Every file of a list of members is there, with the digest given.
abbrev pub AllMatch : Trust → List Found → Members → Type 0
AllMatch t fs end_members = Unit {0}
AllMatch t fs (member f v ms) =
    ((content : Bytes) × (read_file f fs ≡ some content)
      × (v ≡ string (bytes_to_hex (t.sha256 content))))
    × AllMatch t fs ms

-- The manifest verifies under the release key and lists the files that are there, each with its digest.
abbrev pub IsRelease : Trust → List Found → Json → Type 0
IsRelease t fs manifest =
    (manifest_bytes : Bytes) × (signature_file : Bytes) × (signature : Bytes) × (key : Bytes)
    × (files : Option Json) × (read_file manifest_name fs ≡ some manifest_bytes)
    × (read_file signature_name fs ≡ some signature_file)
    × (hex_to_bytes (trim (decode_from none signature_file)) ≡ ok signature)
    × (hex_to_bytes t.release_key ≡ ok key)
    × (t.ml_dsa_verify signature manifest_bytes key ≡ some true)
    × (parse (text_decode manifest_bytes) ≡ ok manifest)
    × (files_member manifest ≡ ok files)
    × AllMatch t fs (listed_members files)
    × All (λ f. has_own_file f files ≡ ok true) (present fs)

text_of-string : (s : Text) (v : Json) → is_text_of s v ≡ true → v ≡ string s
text_of-string s (string t) h = ap string ((text_eq_iff t s).0 h)
text_of-string s _ h = cc

check_digests-AllMatch :
    (t : Trust) (fs : List Found) (ms : Members) (u : Unit {0})
    → check_digests t fs ms ≡ ok u
    → AllMatch t fs ms
unfolding check_digests
check_digests-AllMatch t fs end_members u h = tt
check_digests-AllMatch t fs (member f v ms) u h =
    let (content, r1, h1) = >>=-eq-ok (require_some (read_file f fs) (unreadable f)) _ h in
    let (_, r2, h2) =
      >>=-eq-ok (require (is_text_of (bytes_to_hex (t.sha256 content)) v) (digest_mismatch f)) _
        h1 in
    (
      (content, some_required _ _ content r1, text_of-string _ v (required _ _ r2)),
      check_digests-AllMatch t fs ms u h2,
    )

both : (a b : Bool) → (a && b) ≡ true → (a ≡ true) × (b ≡ true)
both a b h = ground arith

none_extra-owned :
    (fs : List Text) (files : Option Json)
    → none_extra fs files ≡ ok true
    → All (λ f. has_own_file f files ≡ ok true) fs
unfolding none_extra
none_extra-owned [] files h = tt
none_extra-owned (f ∷ fs) files h =
    let (own, r1, h1) = >>=-eq-ok (has_own_file f files) _ h in
    let (rest, r2, h2) = >>=-eq-ok (none_extra fs files) _ h1 in
    let (is_own, is_rest) = both own rest (ok-injective h2) in
    (r1 ∙ ap ok is_own, none_extra-owned fs files (r2 ∙ ap ok is_rest))

hex-ok : (r : Result HexError Bytes) (bs : Bytes) → read_hex r ≡ ok bs → r ≡ ok bs
hex-ok (ok b) bs h = cc
hex-ok (err e) bs h = cc

json-ok : (r : Result ParseError Json) (v : Json) → read_json r ≡ ok v → r ≡ ok v
json-ok (ok b) v h = cc
json-ok (err e) v h = cc

check_files-agree :
    (t : Trust) (fs : List Found) (manifest : Json) (u : Unit {0})
    → check_files t fs manifest ≡ ok u
    → (files : Option Json) × (files_member manifest ≡ ok files)
      × AllMatch t fs (listed_members files)
      × All (λ f. has_own_file f files ≡ ok true) (present fs)
unfolding check_files
check_files-agree t fs manifest u h =
    let (files, r1, h1) = >>=-eq-ok (files_member manifest) _ h in
    let (clean, r2, h2) = >>=-eq-ok (none_extra (present fs) files) _ h1 in
    let (_, r3, h3) =
      >>=-eq-ok (require (none_missing (listed_members files) (present fs) && clean) files_differ) _
        h2 in
    let (_, is_clean) =
      both (none_missing (listed_members files) (present fs)) clean (required _ _ r3) in
    (
      files,
      r1,
      check_digests-AllMatch t fs (listed_members files) u h3,
      none_extra-owned (present fs) files (r2 ∙ ap ok is_clean),
    )

-- Where the integrity test passes, `integrity.json` verifies under the release key with the signature of
-- `integrity.json.sig`, and its text is the manifest returned. Every file that the manifest lists can be
-- read, and the hex of its SHA-256 is what the manifest says; every file of the directory, at any depth,
-- but those two is an own member of the list.
pub integrity_test-IsRelease :
    (t : Trust) (dir : Entries) (manifest : Json)
    → integrity_test t dir ≡ ok manifest
    → IsRelease t (files_in [] dir) manifest
unfolding integrity_test
integrity_test-IsRelease t dir manifest h =
    let fs = files_in [] dir in
    let (mb, r1, h1) =
      >>=-eq-ok (require_some (read_file manifest_name fs) no_signed_manifest) _ h in
    let (sf, r2, h2) =
      >>=-eq-ok (require_some (read_file signature_name fs) no_signed_manifest) _ h1 in
    let (sig, r3, h3) = >>=-eq-ok (read_hex (hex_to_bytes (trim (decode_from none sf)))) _ h2 in
    let (key, r4, h4) = >>=-eq-ok (read_hex (hex_to_bytes t.release_key)) _ h3 in
    let (good, r5, h5) = >>=-eq-ok (require_some (t.ml_dsa_verify sig mb key) verify_threw) _ h4 in
    let (_, r6, h6) = >>=-eq-ok (require good signature_invalid) _ h5 in
    let (json, r7, h7) = >>=-eq-ok (read_json (parse (text_decode mb))) _ h6 in
    let (u, r8, h8) = >>=-eq-ok (check_files t fs json) _ h7 in
    subst (IsRelease t fs) (ok-injective h8)
      (released mb sf sig key good json u r1 r2 r3 r4 r5 r6 r7 r8)
  where
    released :
        (mb sf sig key : Bytes) (good : Bool) (json : Json) (u : Unit {0})
        → require_some (read_file manifest_name (files_in [] dir)) no_signed_manifest ≡ ok mb
        → require_some (read_file signature_name (files_in [] dir)) no_signed_manifest ≡ ok sf
        → read_hex (hex_to_bytes (trim (decode_from none sf))) ≡ ok sig
        → read_hex (hex_to_bytes t.release_key) ≡ ok key
        → require_some (t.ml_dsa_verify sig mb key) verify_threw ≡ ok good
        → require good signature_invalid ≡ ok tt
        → read_json (parse (text_decode mb)) ≡ ok json
        → check_files t (files_in [] dir) json ≡ ok u
        → IsRelease t (files_in [] dir) json
    released mb sf sig key good json u r1 r2 r3 r4 r5 r6 r7 r8 =
        let (files, e, matched, owned) = check_files-agree t (files_in [] dir) json u r8 in
        (
          mb,
          sf,
          sig,
          key,
          files,
          some_required _ _ mb r1,
          some_required _ _ sf r2,
          hex-ok _ sig r3,
          hex-ok _ key r4,
          some_required _ _ good r5 ∙ ap some (required _ _ r6),
          json-ok _ json r7,
          e,
          matched,
          owned,
        )
