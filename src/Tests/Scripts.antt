-- ===== src/Tests/Scripts.antt =====
-- The release scripts at a small module.
use kxco_post_quantum.Prelude.{
  Text, text_eq, if◌then◌else◌, Bool-cases, inl, inr, ◌≡◌, ◌≢◌, ◌⊎◌, refl, sym, ap, ◌∙◌, ◌%◌, [],
  ◌∷◌, ◌++◌, Option, none, some, length, replicate, arith, All, IsByte, Bytes, Result, ok,
  ok-injective, codes,
}
use mathlib.Core.Path.{subst}
use kxco_post_quantum.Value.{text, undefined}
use kxco_post_quantum.Codec.Equal.{bytes_equal}
use kxco_post_quantum.Codec.Hex.{
  hex_digit, to_string16, pad_start2, is_hex, bytes_to_hex, hex_to_bytes,
}
use kxco_post_quantum.Codec.Trim.{trim, trim_start, trim_end}
use kxco_post_quantum.Codec.Utf8.{utf8}
use kxco_post_quantum.Codec.Utf8.Decode.{decode_first, decode_step, decode_from}
use kxco_post_quantum.Json.{Json, Members, string, end_members, member, get_member, has_own}
use kxco_post_quantum.Json.Numbers.{as_written, WritesNumbers}
use kxco_post_quantum.Json.Tokens.{IsNumber}
use kxco_post_quantum.Json.Quote.{quote_from, quote_step, quote_first, quote_unit, short_letter}
use kxco_post_quantum.Json.Print.{quote, gap, after_colon, write, stringify_indented}
use kxco_post_quantum.Json.Scan.{
  num_step, num_ends, number_loop, skip_space, expect, starts, string_loop, string_step,
}
use kxco_post_quantum.Json.Parse.{
  remove_member, put_first, parse_lead, separator, parse_name, parse_value, parse_elements,
  parse_members, parse,
}
use kxco_post_quantum.Derive.{DeriveError}
use kxco_post_quantum.Seed.Keys.{SeededKey}
use kxco_post_quantum.Context.{normalize_context}
use kxco_post_quantum.Signature.{
  sign_bytes, sign_message, sign, verify_bytes, verify_message, verify, to_bytes, signature_bytes,
  uses_native,
}
use kxco_post_quantum.Jws.Sign.{is_index}
use kxco_post_quantum.Backend.{text_leb, insert, sort}
use kxco_post_quantum.Fips.Files.{
  Entries, file, directory, no_entries, entry, files_in, files_of, read_file,
}
use kxco_post_quantum.Fips.Integrity.{Trust, manifest_name, signature_name, present, integrity_test}
use kxco_post_quantum.Release.Disk.{module_disk, write_file}
use kxco_post_quantum.Release.Manifest.{
  replace_member, place_member, set_own, digest_files, package_version, manifest_of, manifest_bytes,
  build_manifest,
}
use kxco_post_quantum.Release.Sign.{
  Signer, Signers, trimmed, signed_all, sign_files, sign_with, sign_release,
}
use kxco_post_quantum.Release.Signed.{chosen}
use kxco_post_quantum.Release.SignedBy.{SignedBy, sign_release-SignedBy}
use kxco_post_quantum.Release.Returns.{build_manifest-returns}
use kxco_post_quantum.Release.Flow.{Agrees, IsName, integrity_test-release}

-- A digest that is a length, and a scheme whose signature is one.
abbrev short : Bytes → Bytes
short bs = (length bs % 256) ∷ []

abbrev trust : Trust
trust = record {
  sha256 = short;
  ml_dsa_verify = λ sig msg key. some (bytes_equal sig (short msg));
  release_key = codes "0a";
}

abbrev pair : SeededKey
pair = record { public_key = 10 ∷ []; secret_key = 11 ∷ []; seed = 12 ∷ [] }

abbrev signer : Signer
signer = record {
  setup = record {
    native_alg = codes "ML-DSA-87";
    js = record {
      sign = λ sk msg ctx. some (short msg);
      verify = λ pk msg sig ctx. some (bytes_equal sig (short msg));
    };
    native = none;
  };
  keypair = λ master label. ok pair;
  published = some (codes "0a\n");
}

abbrev signers : Signers
signers = record {
  with_87 = signer;
  with_65 = signer;
  seed_87 = some (replicate 64 b'0');
  seed_65 = none;
}

abbrev before : Entries
before =
    entry (file (codes "b.js") (2 ∷ 3 ∷ []))
      (entry (directory (codes "a") (entry (file (codes "c.js") []) no_entries)) no_entries)

abbrev version : Option Json
version = some (string (codes "1.2"))

abbrev digests : Members
digests =
    member (codes "a/c.js") (string (codes "00"))
      (member (codes "b.js") (string (codes "02")) end_members)

abbrev after : Entries
after = entry (file (codes "b.js") (2 ∷ 3 ∷ [])) (
    entry (directory (codes "a") (entry (file (codes "c.js") []) no_entries))
      (entry (file manifest_name (manifest_bytes (manifest_of version digests))) no_entries))

same_pair : (kp : SeededKey) → ◌≡◌ {A = Result DeriveError SeededKey} (ok pair) (ok kp) → pair ≡ kp
same_pair kp h = ok-injective h

key_line : trim (decode_from none (codes "0a\n")) ≡ codes "0a"
unfolding trim trim_start trim_end decode_from decode_step decode_first
key_line = refl

same_bytes : (a b : Bytes) → some a ≡ some b → a ≡ b
same_bytes a b h = cc

agrees : Agrees trust short (chosen signers)
unfolding trim trim_start trim_end verify_bytes uses_native
agrees = record {
  same_digest = λ content. refl;
  digest_bytes = λ content. (omega arith, tt);
  key_bytes =
      λ master label kp h. subst (λ k. All IsByte k.public_key) (same_pair kp h) (omega arith, tt);
  same_key =
      λ expected h. ap (λ x. trim (decode_from none x)) (sym (same_bytes _ expected h)) ∙ key_line;
  accepts = λ key content signature h. h;
}

-- What the engine writes for the numbers of the tests, and null for the others.
abbrev number_text : Text → Option Text
number_text n = if text_eq n (codes "1.0") then some (codes "1") else none

one-IsNumber : IsNumber (codes "1")
unfolding number_loop num_step num_ends
one-IsNumber = refl

numbers : WritesNumbers number_text
numbers n m h = elim (Bool-cases (text_eq n (codes "1.0"))) [
  | inl e ↦ subst IsNumber (same_text (codes "1") m (rw e at h)) one-IsNumber
  | inr e ↦ cc (rw e at h)
]
  where
    same_text : (a b : Text) → some a ≡ some b → a ≡ b
    same_text a b p = cc

abbrev package_file : Bytes
package_file = codes "{\"version\":\"1.2\"}"

parses : package_version number_text (parse (decode_from none package_file)) ≡ ok version
unfolding package_version decode_from decode_step decode_first parse parse_value parse_elements
    parse_members parse_lead parse_name separator put_first remove_member get_member has_own
    skip_space expect starts string_loop string_step as_written
parses = refl

digested :
    digest_files short (files_in [] before) (sort (present (files_in [] before))) end_members
    ≡ ok digests
unfolding digest_files files_in files_of read_file present sort insert text_leb set_own
    replace_member place_member has_own bytes_to_hex to_string16 hex_digit pad_start2 is_index
digested = refl

built : build_manifest short number_text package_file before ≡ ok after
unfolding build_manifest write_file
built = rw (digested, parses) refl

abbrev sealed : Entries
sealed = entry (file (codes "b.js") (2 ∷ 3 ∷ [])) (
    entry (directory (codes "a") (entry (file (codes "c.js") []) no_entries)) (
      entry (file manifest_name (manifest_bytes (manifest_of version digests))) (
        entry
          (file signature_name (
            utf8
              (bytes_to_hex (short (manifest_bytes (manifest_of version digests))) ++ b'\n' ∷ [])))
          no_entries)))

signs : sign_release module_disk signers (manifest_name ∷ []) after ≡ (sealed, signed_all)
unfolding sign_release sign_with sign_files files_in files_of read_file write_file sign verify
    normalize_context sign_message sign_bytes verify_message verify_bytes uses_native to_bytes
    signature_bytes trim trim_start trim_end decode_from decode_step decode_first is_hex
    bytes_to_hex hex_to_bytes stringify_indented write manifest_of gap quote quote_from quote_step
    quote_first quote_unit short_letter after_colon bytes_equal
signs = refl

package_bytes : All IsByte package_file
package_bytes = omega arith

names : All IsName (present (files_in [] before))
unfolding present files_in files_of
names = ((omega arith, refl), ((omega arith, refl), tt))

integrity_test-release_example :
    (files : Members) × (digest_files short
        (files_in [] before)
        (sort (present (files_in [] before)))
        end_members
      ≡ ok files)
    × (integrity_test trust sealed ≡ ok (manifest_of version files))
integrity_test-release_example =
    integrity_test-release trust short signers number_text package_file version before after sealed
      numbers agrees names package_bytes parses built signs

sign_release-SignedBy_example :
    ((trimmed signers.seed_87 ≢ [])
      × SignedBy module_disk signers.with_87
          (trimmed signers.seed_87)
          (text (codes "kxco-release-signing-87-v1"))
          (manifest_name ∷ [])
          after
          sealed)
    ⊎ ((trimmed signers.seed_87 ≡ [])
        × SignedBy module_disk signers.with_65
            (trimmed signers.seed_65)
            undefined
            (manifest_name ∷ [])
            after
            sealed)
sign_release-SignedBy_example =
    sign_release-SignedBy module_disk signers (manifest_name ∷ []) after sealed signs

build_manifest-returns_example :
    (dir : Entries) × (build_manifest short number_text package_file before ≡ ok dir)
build_manifest-returns_example =
    build_manifest-returns short number_text package_file version before parses (refl, tt)
