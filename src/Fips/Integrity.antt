-- ===== src/Fips/Integrity.antt =====
-- `integrityTest` of src/fips/index.js. The vendored SHA-256 and ML-DSA-87 and the key of
-- src/fips/release-key.js are parameters.
pub mod Laws
use kxco_post_quantum.Prelude.{
  ℕ, suc, ◌+◌, Bool, true, false, not, ◌&&◌, ◌||◌, List, [], ◌∷◌, ◌++◌, Option, none, some, leb,
  ◌==◌, if◌then◌else◌, any, Text, Bytes, codes, text_eq, Result, ok, err, require, require_some,
  ◌>>=◌, ◌>>◌,
}
use kxco_post_quantum.Codec.Trim.{trim}
use kxco_post_quantum.Codec.Hex.{bytes_to_hex, hex_to_bytes, HexError}
use kxco_post_quantum.Codec.Utf8.Decode.{decode_from, text_decode}
use kxco_post_quantum.Json.{
  Json, Elements, Members, null, string, array, object, end_elements, element, end_members, member,
  get_member, has_own,
}
use kxco_post_quantum.Json.Scan.{ParseError}
use kxco_post_quantum.Json.Parse.{parse}
use kxco_post_quantum.Webhook.Delivery.{to_decimal}
use kxco_post_quantum.Fips.Files.{Entries, Found, files_in, read_file}

-- `ml_dsa87.verify` gives `none` where it throws.
pub record Trust : Type 0 where
  pub sha256 : Bytes → Bytes
  pub ml_dsa_verify : (signature message public_key : Bytes) → Option Bool
  pub release_key : Text

pub data IntegrityError : Type 0 where
  no_signed_manifest invalid_hex verify_threw signature_invalid : IntegrityError
  not_json type_error files_differ : IntegrityError
  unreadable digest_mismatch : Text → IntegrityError

abbrev pub manifest_name : Text
manifest_name = codes "integrity.json"

abbrev pub signature_name : Text
signature_name = codes "integrity.json.sig"

-- `hexToBytes`, which throws on anything but hex.
abbrev pub read_hex : Result HexError Bytes → Result IntegrityError Bytes
read_hex (ok bs) = ok bs
read_hex (err e) = err invalid_hex

abbrev pub read_json : Result ParseError Json → Result IntegrityError Json
read_json (ok v) = ok v
read_json (err e) = err not_json

-- `manifest.files`
abbrev pub files_member : Json → Result IntegrityError (Option Json)
files_member null = err type_error
files_member (object ms) = ok (get_member (codes "files") ms)
files_member _ = ok none

-- The own members of an array and of a string, less `length`, which is not enumerable.
unfoldable pub element_members : ℕ → Elements → Members
element_members n end_elements = end_members
element_members n (element v es) = member (to_decimal n) v (element_members (n + 1) es)

unfoldable pub unit_members : ℕ → Text → Members
unit_members n [] = end_members
unit_members n (c ∷ s) = member (to_decimal n) (string (c ∷ [])) (unit_members (n + 1) s)

-- `Object.keys(manifest.files ?? {})`, with the values.
unfoldable pub listed_members : Option Json → Members
listed_members (some (object ms)) = ms
listed_members (some (array es)) = element_members 0 es
listed_members (some (string s)) = unit_members 0 s
listed_members _ = end_members

-- `Object.hasOwn(manifest.files, f)`
unfoldable pub has_own_file : Text → Option Json → Result IntegrityError Bool
has_own_file f none = err type_error
has_own_file f (some null) = err type_error
has_own_file f (some (array es)) =
    ok (text_eq f (codes "length") || has_own f (element_members 0 es))
has_own_file f (some (string s)) = ok (text_eq f (codes "length") || has_own f (unit_members 0 s))
has_own_file f files = ok (has_own f (listed_members files))

-- `filesIn(HERE)` without the manifest and its signature.
unfoldable pub present : List Found → List Text
present [] = []
present (f ∷ fs) =
    if not (text_eq f.path manifest_name) && not (text_eq f.path signature_name)
    then f.path ∷ present fs
    else present fs

abbrev pub includes : List Text → Text → Bool
includes fs f = any (λ g. text_eq g f) fs

-- `missing.length === 0`
unfoldable pub none_missing : Members → List Text → Bool
none_missing end_members fs = true
none_missing (member f v ms) fs = includes fs f && none_missing ms fs

-- `extra.length === 0`; the filter throws where `hasOwn` does.
unfoldable pub none_extra : List Text → Option Json → Result IntegrityError Bool
none_extra [] files = ok true
none_extra (f ∷ fs) files = do
  own ← has_own_file f files
  rest ← none_extra fs files
  ok (own && rest)

abbrev pub is_text_of : Text → Json → Bool
is_text_of s (string t) = text_eq t s
is_text_of s _ = false

-- The loop over the digests.
unfoldable pub check_digests : Trust → List Found → Members → Result IntegrityError (Unit {0})
check_digests t fs end_members = ok tt
check_digests t fs (member f v ms) = do
  content ← require_some (read_file f fs) (unreadable f)
  require (is_text_of (bytes_to_hex (t.sha256 content)) v) (digest_mismatch f)
  check_digests t fs ms

unfoldable pub check_files : Trust → List Found → Json → Result IntegrityError (Unit {0})
check_files t fs manifest = do
  files ← files_member manifest
  no_extra ← none_extra (present fs) files
  require (none_missing (listed_members files) (present fs) && no_extra) files_differ
  check_digests t fs (listed_members files)

unfoldable pub integrity_test : Trust → Entries → Result IntegrityError Json
integrity_test t dir = do
  let fs = files_in [] dir
  manifest_bytes ← require_some (read_file manifest_name fs) no_signed_manifest
  signature_file ← require_some (read_file signature_name fs) no_signed_manifest
  signature ← read_hex (hex_to_bytes (trim (decode_from none signature_file)))
  key ← read_hex (hex_to_bytes t.release_key)
  good ← require_some (t.ml_dsa_verify signature manifest_bytes key) verify_threw
  require good signature_invalid
  manifest ← read_json (parse (text_decode manifest_bytes))
  check_files t fs manifest
  ok manifest
