-- ===== src/Tests/Release.antt =====
-- The integrity test of src/fips/index.js, the import and `selfTest`, at a small release.
use kxco_post_quantum.Prelude.{
  ◌≡◌, ◌⊎◌, refl, true, [], ◌∷◌, some, replicate, Text, Bytes, ok, err, codes,
}
use kxco_post_quantum.Codec.Equal.{bytes_equal}
use kxco_post_quantum.Codec.Trim.{trim}
use kxco_post_quantum.Codec.Hex.{
  hex_digit, to_string16, pad_start2, is_hex, hex_value, parse_pairs, bytes_to_hex, hex_to_bytes,
}
use kxco_post_quantum.Codec.Utf8.Decode.{decode_first, decode_step, decode_from, text_decode}
use kxco_post_quantum.Json.{Json, object, string, end_members, member, get_member, has_own}
use kxco_post_quantum.Json.Scan.{skip_space, expect, starts, string_loop, string_step}
use kxco_post_quantum.Json.Parse.{
  remove_member, put_first, parse_lead, separator, parse_name, parse_value, parse_elements,
  parse_members, parse,
}
use kxco_post_quantum.Fips.Drbg.{instantiate, reseed, generate, update, step, output_loop}
use kxco_post_quantum.Fips.Services.Calls.{start, instantiate_from}
use kxco_post_quantum.Fips.Entropy.{get_entropy}
use kxco_post_quantum.Fips.Machine.{Module, operational, load, returned}
use kxco_post_quantum.Fips.Files.{
  Entry, Entries, file, directory, no_entries, entry, files_in, files_of, read_file,
}
use kxco_post_quantum.Fips.Integrity.{
  Trust, digest_mismatch, files_differ, has_own_file, listed_members, present, none_missing,
  none_extra, check_digests, check_files, integrity_test,
}
use kxco_post_quantum.Fips.Import.{Found, boot_of, import_module, test_again}
use kxco_post_quantum.Fips.Import.Laws.{
  IsTested, HasFailed, import_module-IsTested, test_again-cases,
}
use kxco_post_quantum.Fips.SelfTest.{
  Vendored, Kat, DecapsKat, use_generate, use_reseed, test_failed, sha256_test, run_integrity_casts,
  run_algorithm_casts, cast_sha256, cast_ml_dsa_verify, cast_sha512, cast_hmac, drbg_steps,
  cast_drbg, cast_ml_kem, cast_ml_dsa,
}
use kxco_post_quantum.Tests.Module.{suite, boot}

-- A digest that is the text itself, and a scheme with one signature.
abbrev trust : Trust
trust = record {
  sha256 = λ bs. bs;
  ml_dsa_verify = λ sig msg key. some (bytes_equal sig (1 ∷ 255 ∷ []));
  release_key = codes "0a";
}

abbrev signed : Entry
signed = file (codes "integrity.json.sig") (codes " 01fF\n")

abbrev manifest_file : Entry
manifest_file =
    file (codes "integrity.json") (codes "{\"files\":{\"a.js\":\"0203\",\"v/b.js\":\"04\"}}")

abbrev dir_of : Bytes → Entries → Entries
dir_of a more = entry signed (
    entry (file (codes "a.js") a) (
      entry (directory (codes "v") (entry (file (codes "b.js") (4 ∷ [])) more))
        (entry manifest_file no_entries)))

abbrev release_dir : Entries
release_dir = dir_of (2 ∷ 3 ∷ []) no_entries

abbrev manifest : Json
manifest = object (
    member (codes "files")
      (object (
        member (codes "a.js") (string (codes "0203"))
          (member (codes "v/b.js") (string (codes "04")) end_members)))
      end_members)

passes : integrity_test trust release_dir ≡ ok manifest
unfolding integrity_test files_in files_of read_file hex_to_bytes is_hex hex_value parse_pairs trim
    decode_from decode_step decode_first bytes_equal text_decode parse parse_value parse_elements
    parse_members parse_lead parse_name separator put_first remove_member get_member has_own
    skip_space expect starts string_loop string_step check_files has_own_file listed_members present
    none_missing none_extra check_digests bytes_to_hex to_string16 hex_digit pad_start2
passes = refl

-- A file with another content, and a file that is not listed.
finds_change :
    integrity_test trust (dir_of (9 ∷ 3 ∷ []) no_entries) ≡ err (digest_mismatch (codes "a.js"))
unfolding integrity_test files_in files_of read_file hex_to_bytes is_hex hex_value parse_pairs trim
    decode_from decode_step decode_first bytes_equal text_decode parse parse_value parse_elements
    parse_members parse_lead parse_name separator put_first remove_member get_member has_own
    skip_space expect starts string_loop string_step check_files has_own_file listed_members present
    none_missing none_extra check_digests bytes_to_hex to_string16 hex_digit pad_start2
finds_change = refl

finds_extra :
    integrity_test trust (dir_of (2 ∷ 3 ∷ []) (entry (file (codes "x") []) no_entries))
    ≡ err files_differ
unfolding integrity_test files_in files_of read_file hex_to_bytes is_hex hex_value parse_pairs trim
    decode_from decode_step decode_first bytes_equal text_decode parse parse_value parse_elements
    parse_members parse_lead parse_name separator put_first remove_member get_member has_own
    skip_space expect starts string_loop string_step check_files has_own_file listed_members present
    none_missing none_extra check_digests bytes_to_hex to_string16 hex_digit pad_start2
finds_extra = refl

abbrev vendored : Vendored
vendored = record { sha256 = λ bs. bs; sha512 = λ bs. bs; algorithms = suite }

abbrev zeros : Text
zeros = replicate 64 b'0'

abbrev decaps_kat : DecapsKat
decaps_kat = record { c = codes "07"; dk = codes "08"; k = codes "07" }

-- The known answers of the suite.
abbrev kat : Kat
kat = record {
  sha256 = record { msg = codes "01"; md = codes "01" };
  sha512 = record { msg = codes "02"; md = codes "02" };
  hmac_sha512 = record { key = codes "00"; msg = codes "00"; mac = codes "0909" };
  hmac_drbg = record {
    entropy_input = zeros;
    nonce = zeros;
    personalization = [];
    steps = use_generate [] ∷ use_reseed zeros [] ∷ use_generate [] ∷ [];
    returned_bytes = 2;
    returned_sha256 = codes "0909";
  };
  ml_kem = record {
    d = codes "01";
    z = codes "02";
    ek_sha256 = codes "0102";
    dk_sha256 = codes "0102";
    ek = codes "05";
    m = codes "06";
    c_sha256 = codes "06";
    k = codes "06";
  };
  ml_kem_decaps = decaps_kat;
  ml_kem_reject = decaps_kat;
  ml_dsa = record {
    seed = codes "01";
    pk_sha256 = codes "01";
    sk_sha256 = codes "01";
    message = codes "02";
    sk = codes "01";
    context = [];
    rnd = codes "03";
    signature_sha256 = codes "03";
  };
  ml_dsa_verify = record {
    signature = codes "03";
    message = codes "02";
    pk = codes "01";
    context = [];
  };
}

integrity_casts : run_integrity_casts vendored kat ≡ ok tt
unfolding run_integrity_casts cast_sha256 cast_ml_dsa_verify bytes_to_hex to_string16 hex_digit
    pad_start2 parse_pairs hex_value
integrity_casts = refl

algorithm_casts : run_algorithm_casts vendored kat ≡ ok tt
unfolding run_algorithm_casts cast_sha512 cast_hmac cast_drbg drbg_steps cast_ml_kem cast_ml_dsa
    bytes_to_hex to_string16 hex_digit pad_start2 parse_pairs hex_value instantiate reseed generate
    update step output_loop
algorithm_casts = refl

-- A known answer that is wrong.
bad_cast :
    run_integrity_casts vendored
      (record kat { sha256 = record { msg = codes "01"; md = codes "02" } })
    ≡ err (test_failed sha256_test)
unfolding run_integrity_casts cast_sha256 bytes_to_hex to_string16 hex_digit pad_start2 parse_pairs
    hex_value
bad_cast = refl

abbrev found : Found
found = record {
  from_file = true;
  module_directory = release_dir;
  device = replicate 48 1 ∷ replicate 32 2 ∷ [];
}

abbrev imported : Module
imported = import_module trust vendored kat found

boots : boot_of trust vendored kat found ≡ boot
unfolding boot_of
boots = rw (passes, integrity_casts, algorithm_casts) refl

imported_is_operational : imported.state ≡ operational
unfolding import_module instantiate_from get_entropy instantiate
imported_is_operational = rw boots (unfold load start in refl)

imported_has_services : imported.services ≡ true
unfolding import_module instantiate_from get_entropy instantiate
imported_has_services = rw boots (unfold load start in refl)

import_module-IsTested_example : (found.from_file ≡ true) × IsTested trust vendored kat release_dir
import_module-IsTested_example =
    import_module-IsTested trust vendored kat found imported_is_operational

test_again-cases_example :
    ((test_again trust vendored kat release_dir imported ≡ (returned tt, imported))
      × IsTested trust vendored kat release_dir)
    ⊎ HasFailed (test_again trust vendored kat release_dir imported)
test_again-cases_example =
    test_again-cases trust vendored kat release_dir imported imported_is_operational
      imported_has_services
