-- ===== src/Release/Returns.antt =====
-- The release scripts come to their end where the files are as they should be.
use kxco_post_quantum.Prelude.{
  ◌≡◌, refl, Bool, true, false, ◌||◌, Bool-cases, inl, inr, List, [], ◌∷◌, ◌++◌, Option, none, some,
  All, arith, Text, Bytes, text_eq, ok,
}
use kxco_post_quantum.Value.{u8}
use kxco_post_quantum.Codec.Hex.{bytes_to_hex}
use kxco_post_quantum.Codec.Utf8.{utf8}
use kxco_post_quantum.Codec.Utf8.Decode.{decode_from}
use kxco_post_quantum.Json.{Json, Members, end_members}
use kxco_post_quantum.Json.Parse.{parse}
use kxco_post_quantum.Context.{absent, normalize_context}
use kxco_post_quantum.Seed.Keys.{SeededKey}
use kxco_post_quantum.Signature.{Setup, to_bytes, sign_bytes, sign_message, sign}
use kxco_post_quantum.Signature.Laws.{Interoperable, verify-sign}
use kxco_post_quantum.Backend.{sort}
use kxco_post_quantum.Fips.Files.{
  Entries, file, directory, no_entries, entry, Found, files_in, read_file,
}
use kxco_post_quantum.Fips.Integrity.{manifest_name, present, includes}
use kxco_post_quantum.Release.Disk.{module_disk, write_file}
use kxco_post_quantum.Release.Manifest.{
  set_own, digest_of, digest_files, package_version, manifest_of, manifest_bytes, build_manifest,
}
use kxco_post_quantum.Release.Sign.{signed_all, sig_name, sign_files}
use kxco_post_quantum.Release.Tree.{is_listed}
use kxco_post_quantum.Release.Digests.{sort-All, all_included}

-- No directory stands where a file is to be written.
abbrev pub IsFree : Text → Entries → Type 0
IsFree n no_entries = Unit {0}
IsFree n (entry (file m content) es) = IsFree n es
IsFree n (entry (directory m inner) es) = (text_eq m n ≡ false) × IsFree n es

pub write_file-returns :
    (n : Text) (bytes : Bytes) (dir : Entries)
    → IsFree n dir
    → (dir' : Entries) × (write_file n bytes dir ≡ some dir')
unfolding write_file
write_file-returns n bytes no_entries h = (_, refl)
write_file-returns n bytes (entry (file m content) es) h =
    let (es', e) = write_file-returns n bytes es h in
    elim (Bool-cases (text_eq m n)) [
      | inl same ↦ (entry (file n bytes) es, rw same refl)
      | inr other ↦ (entry (file m content) es', rw (other, e) refl)
    ]
write_file-returns n bytes (entry (directory m inner) es) (other, h) =
    let (es', e) = write_file-returns n bytes es h in
    (entry (directory m inner) es', rw (other, e) refl)

or_right : (a b : Bool) → (a || b) ≡ true → a ≡ false → b ≡ true
or_right a b h e = ground arith

-- A file of the walk can be read.
present-read :
    (f : Text) (fs : List Found)
    → includes (present fs) f ≡ true
    → (content : Bytes) × (read_file f fs ≡ some content)
unfolding present read_file
present-read f [] h = cc
present-read f (g ∷ fs) h = elim (Bool-cases (text_eq g.path f)) [
  | inl same ↦ (g.content, rw same refl)
  | inr other ↦ elim (Bool-cases (is_listed g.path)) [
    | inl listed ↦
        let (content, r) =
          present-read f fs
            (or_right (text_eq g.path f) (includes (present fs) f) (rw listed at h) other) in
        (content, rw other r)
    | inr unlisted ↦
        let (content, r) = present-read f fs (rw unlisted at h) in (content, rw other r)
  ]
]

digest_files-returns :
    (sha256 : Bytes → Bytes) (fs : List Found) (todo : List Text) (files : Members)
    → All (λ f. includes (present fs) f ≡ true) todo
    → (result : Members) × (digest_files sha256 fs todo files ≡ ok result)
unfolding digest_files
digest_files-returns sha256 fs [] files h = (files, refl)
digest_files-returns sha256 fs (f ∷ todo) files (h, hs) =
    let (content, r) = present-read f fs h in
    let (result, e) =
      digest_files-returns sha256 fs todo (set_own f (digest_of sha256 content) files) hs in
    (result, rw r e)

-- The manifest is built and written where `package.json` is JSON and not null, and where no directory is
-- named `integrity.json`.
pub build_manifest-returns :
    (sha256 : Bytes → Bytes) (number_text : Text → Option Text) (package_json : Bytes)
    (version : Option Json) (dir : Entries)
    → package_version number_text (parse (decode_from none package_json)) ≡ ok version
    → IsFree manifest_name dir
    → (dir' : Entries) × (build_manifest sha256 number_text package_json dir ≡ ok dir')
unfolding build_manifest
build_manifest-returns sha256 number_text package_json version dir h free =
    let fs = files_in [] dir in
    let (files, e) =
      digest_files-returns sha256 fs (sort (present fs)) end_members
        (sort-All (λ f. includes (present fs) f ≡ true) (present fs) (all_included (present fs))) in
    let (dir', w) =
      write_file-returns manifest_name (manifest_bytes (manifest_of version files)) dir free in
    (dir', rw (e, h, w) refl)

signs_ok :
    (m : Setup) (secret_key content signature : Bytes)
    → sign_bytes m secret_key content none ≡ some signature
    → sign m secret_key (u8 content) absent ≡ ok (bytes_to_hex signature)
unfolding sign normalize_context sign_message to_bytes
signs_ok m secret_key content signature h = made
  where
    made : sign_message m secret_key (u8 content) none ≡ ok (bytes_to_hex signature)
    made = rw (sign_message, h) refl

-- One file is signed beside itself where it can be read, where the module signs its content and accepts
-- what it signs, and where no directory has the signature's name.
pub sign_files-returns :
    (m : Setup) (kp : SeededKey) (f : Text) (dir : Entries) (content signature : Bytes)
    → Interoperable m m kp.secret_key kp.public_key
    → read_file f (files_in [] dir) ≡ some content
    → sign_bytes m kp.secret_key content none ≡ some signature
    → IsFree (sig_name f) dir
    → (dir' : Entries) × (sign_files module_disk m kp (f ∷ []) dir ≡ (dir', signed_all))
unfolding sign_files
sign_files-returns m kp f dir content signature inter r s free =
    let made = signs_ok m kp.secret_key content signature s in
    let (dir', w) =
      write_file-returns (sig_name f) (utf8 (bytes_to_hex signature ++ b'\n' ∷ [])) dir free in
    (
      dir',
      rw
          (
            r,
            sign_files,
            made,
            verify-sign m m kp.secret_key kp.public_key (u8 content) absent (bytes_to_hex signature)
                inter made,
            w,
          )
          refl,
    )
