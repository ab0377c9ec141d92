-- ===== src/Release/Flow.antt =====
-- A release from end to end: what the two scripts make of the FIPS module's directory passes the
-- module's own integrity test.
use kxco_post_quantum.Prelude.{
  ◌≡◌, refl, sym, ap, ◌∙◌, true, false, List, [], ◌∷◌, Option, none, some, All, Text, Bytes, IsByte,
  text_eq, ok, ok-injective, >>=-eq-ok,
}
use mathlib.Core.Path.{subst}
use kxco_post_quantum.Value.{Value}
use kxco_post_quantum.Codec.Hex.{bytes_to_hex, hex_to_bytes}
use kxco_post_quantum.Codec.Hex.Laws.{hex_to_bytes-bytes_to_hex}
use kxco_post_quantum.Codec.Trim.{trim}
use kxco_post_quantum.Codec.Utf8.Decode.{decode_from, text_decode}
use kxco_post_quantum.Json.{Json, Members, end_members, has_own}
use kxco_post_quantum.Json.Quote.Laws.{IsUnit}
use kxco_post_quantum.Json.Canonical.{MembersAreCanonical}
use kxco_post_quantum.Json.Numbers.{WritesNumbers}
use kxco_post_quantum.Json.Parse.{parse}
use kxco_post_quantum.Jws.Segments.Laws.{some_required}
use kxco_post_quantum.Backend.{sort}
use kxco_post_quantum.Seed.Keys.{SeededKey}
use kxco_post_quantum.Signature.{verify_bytes}
use kxco_post_quantum.Fips.Files.{Entries, Found, files_in, read_file}
use kxco_post_quantum.Fips.Integrity.{
  Trust, manifest_name, signature_name, includes, present, check_files, listed_members,
  integrity_test,
}
use kxco_post_quantum.Release.Disk.{module_disk, write_file}
use kxco_post_quantum.Release.Manifest.{
  proto, digest_files, package_version, manifest_of, manifest_bytes, build_manifest, cannot_write,
}
use kxco_post_quantum.Release.Sign.{Signer, Signers, signed_all, sign_release}
use kxco_post_quantum.Release.Tree.{
  Writes, write_file-Writes, Writes-read, Writes-other, Writes-present,
}
use kxco_post_quantum.Release.Digests.{
  includes-sort, sort-All, all_included, digest_files-Each, digest_files-own,
  digest_files-canonical, none_missing-Each, none_extra-own, check_digests-Each,
}
use kxco_post_quantum.Release.Signed.{Signing, done, signed, chosen}
use kxco_post_quantum.Release.SignedBy.{sign_release-chosen}
use kxco_post_quantum.Release.Passes.{
  hex-units, object_file, VersionIsCanonical, manifest_of-members, files_member-manifest_of,
  integrity_test-passes, present-listed,
}
use kxco_post_quantum.Release.Version.{version-IsCanonical}

-- What the module trusts is what the scripts use: the two implementations of SHA-256 agree, and
-- their digests are bytes; the key pair's public key is bytes; the text of the published key is the
-- constant of src/fips/release-key.js; and the vendored ML-DSA-87 accepts what the package's does.
pub record Agrees (t : Trust) (sha256 : Bytes → Bytes) (signer : Signer) : Type 0 where
  pub same_digest : (content : Bytes) → sha256 content ≡ t.sha256 content
  pub digest_bytes : (content : Bytes) → All IsByte (sha256 content)
  pub key_bytes :
      (master label : Value) (kp : SeededKey)
      → signer.keypair master label ≡ ok kp
      → All IsByte kp.public_key
  pub same_key :
      (expected : Bytes)
      → signer.published ≡ some expected
      → trim (decode_from none expected) ≡ t.release_key
  pub accepts :
      (public_key content signature : Bytes)
      → verify_bytes signer.setup public_key content signature none ≡ some true
      → t.ml_dsa_verify signature content public_key ≡ some true

-- A path of code units that an object can have as its own name.
abbrev pub IsName : Text → Type 0
IsName f = All IsUnit f × (text_eq f proto ≡ false)

names_units : (fs : List Text) → All IsName fs → All (All IsUnit) fs
names_units [] h = tt
names_units (f ∷ fs) ((u, p), hs) = (u, names_units fs hs)

all_own :
    (files : Members) (todo fs : List Text)
    → All IsName fs
    → All (λ f. includes todo f ≡ true) fs
    → ((f : Text) → text_eq f proto ≡ false → includes todo f ≡ true → has_own f files ≡ true)
    → All (λ f. has_own f files ≡ true) fs
all_own files todo [] h i own = tt
all_own files todo (f ∷ fs) ((u, p), hs) (i, is) own = (own f p i, all_own files todo fs hs is own)

module _ (t : Trust) (sha256 : Bytes → Bytes) (signer : Signer)
    (agree : Agrees t sha256 signer) where
  -- The object of the digests against the directory with the manifest and the signature.
  files_pass :
      (version : Option Json) (fs gs : List Found) (files : Members)
      → All IsName (present fs)
      → digest_files sha256 fs (sort (present fs)) end_members ≡ ok files
      → present gs ≡ present fs
      → ((f : Text) → includes (present fs) f ≡ true → read_file f gs ≡ read_file f fs)
      → check_files t gs (manifest_of version files) ≡ ok tt
  unfolding check_files listed_members
  files_pass version fs gs files names built same reads =
      let paths = present fs in
      let todo = all_included paths in
      let back = sort-All (λ f. includes paths f ≡ true) paths todo in
      let each = digest_files-Each sha256 fs paths (sort paths) end_members files back built tt in
      let own = all_own files paths paths names todo (λ f p i.
        digest_files-own sha256 fs paths f (sort paths) end_members files p
          (includes-sort f paths ∙ i) built) in
      rw
        (
          files_member-manifest_of version files,
          same,
          none_extra-own paths files own,
          none_missing-Each sha256 fs paths files each,
          check_digests-Each t sha256 gs fs paths files agree.same_digest reads each,
        )
        refl

  released :
      (version : Option Json) (dir dir1 dir2 : Entries) (files : Members) (key expected : Bytes)
      → All IsName (present (files_in [] dir))
      → VersionIsCanonical version
      → digest_files sha256 (files_in [] dir) (sort (present (files_in [] dir))) end_members
        ≡ ok files
      → Writes manifest_name (manifest_bytes (manifest_of version files)) dir dir1
      → Signing module_disk signer.setup key (manifest_name ∷ []) dir1 dir2
      → All IsByte key
      → bytes_to_hex key ≡ t.release_key
      → integrity_test t dir2 ≡ ok (manifest_of version files)
  released version dir dir1 dir2 files key expected names hv built w1
        (signed content signature sig read own good w done) hk same_key =
      let fs = files_in [] dir in
      let (ms, is_object, canonical) = manifest_of-members version files hv (
        digest_files-canonical sha256 fs (present fs) (sort (present fs)) end_members files
          (sort-All (All IsUnit) (present fs) (names_units (present fs) names))
          (λ c. hex-units (sha256 c) (agree.digest_bytes c)) built
          (unfold MembersAreCanonical in tt)) in
      let bytes = manifest_bytes (manifest_of version files) in
      let w2 = write_file-Writes signature_name _ dir1 dir2 w in
      let placed = Writes-read manifest_name bytes dir dir1 refl w1 in
      integrity_test-passes t dir2 (manifest_of version files) bytes signature key sig
        (Writes-other signature_name manifest_name _ dir1 dir2 refl w2 ∙ placed)
        (Writes-read signature_name _ dir1 dir2 refl w2) own
        (ap hex_to_bytes (sym same_key) ∙ hex_to_bytes-bytes_to_hex key hk)
        (subst (λ x. t.ml_dsa_verify signature x key ≡ some true) (some_same (sym read ∙ placed))
          (agree.accepts key content signature good))
        (subst (λ m. parse (text_decode (manifest_bytes m)) ≡ ok m) (sym is_object)
          (object_file ms canonical))
        (files_pass version fs (files_in [] dir2) files names built
          (Writes-present signature_name _ dir1 dir2 refl w2
            ∙ Writes-present manifest_name bytes dir dir1 refl w1)
          (λ f i.
            let (m, s) = present-listed f fs i in
            Writes-other signature_name f _ dir1 dir2 s w2
            ∙ Writes-other manifest_name f bytes dir dir1 m w1))
    where
      some_same : {a b : Bytes} → some a ≡ some b → a ≡ b
      some_same p = cc

-- Where the script that builds the manifest has written it into the module's directory, and the script
-- that signs releases has then signed `integrity.json` there, the module's integrity test passes on that
-- directory and returns the manifest: the package's version, its numbers as the engine writes
-- them, and the digests of the files that the directory had. This is so where the scripts and the module
-- agree, which `Agrees` says, where the paths are of code units and none is `__proto__`, where
-- `package.json` is of bytes, and where what the engine writes for a number is a literal.
pub integrity_test-release :
    (t : Trust) (sha256 : Bytes → Bytes) (s : Signers) (number_text : Text → Option Text)
    (package_json : Bytes) (version : Option Json) (dir dir1 dir2 : Entries)
    → WritesNumbers number_text
    → Agrees t sha256 (chosen s)
    → All IsName (present (files_in [] dir))
    → All IsByte package_json
    → package_version number_text (parse (decode_from none package_json)) ≡ ok version
    → build_manifest sha256 number_text package_json dir ≡ ok dir1
    → sign_release module_disk s (manifest_name ∷ []) dir1 ≡ (dir2, signed_all)
    → (files : Members) × (digest_files sha256
          (files_in [] dir)
          (sort (present (files_in [] dir)))
          end_members
        ≡ ok files)
      × (integrity_test t dir2 ≡ ok (manifest_of version files))
unfolding build_manifest
integrity_test-release t sha256 s number_text package_json version dir dir1 dir2 numbers agree names
      bytes is_version built signed_so =
    let fs = files_in [] dir in
    let (files, r1, h1) =
      >>=-eq-ok (digest_files sha256 fs (sort (present fs)) end_members) _ built in
    let (v, r2, h2) =
      >>=-eq-ok (package_version number_text (parse (decode_from none package_json))) _ h1 in
    let (master, label, kp, expected, derived, published, same, signing) =
      sign_release-chosen module_disk s (manifest_name ∷ []) dir1 dir2 signed_so in
    let w1 = write_file-Writes manifest_name (manifest_bytes (manifest_of version files)) dir dir1 (
      subst (λ x. write_file manifest_name (manifest_bytes (manifest_of x files)) dir ≡ some dir1)
        (ok-injective (sym r2 ∙ is_version)) (some_required _ cannot_write dir1 h2)) in
    (
      files,
      r1,
      released t sha256 (chosen s) agree version dir dir1 dir2 files kp.public_key expected names
          (version-IsCanonical number_text package_json version numbers bytes is_version) r1 w1
          signing (agree.key_bytes master label kp derived)
          (same ∙ agree.same_key expected published),
    )
