-- ===== src/Seed/Pkcs8.antt =====
-- `exportSeedPkcs8` and `importSeedPkcs8` of src/seed.js.
pub mod RoundTrip
use kxco_post_quantum.Prelude.{
  ℕ, ◌+◌, Bool, List, [], ◌∷◌, ◌++◌, Option, none, some, ◌==◌, if◌then◌else◌, length, get_elem?,
  Bytes, Result, ok, err, require, require_some, ◌>>=◌, ◌>>◌,
}
use kxco_post_quantum.Value.{Value, as_bytes, NotBytes, uint8_from}
use kxco_post_quantum.Codec.Equal.{bytes_equal}
use kxco_post_quantum.Seed.Params.{
  ParamSet, Params, params, seed_algorithms, find, SeedError, not_a_byte_array, wrong_seed_length,
  expected_tag, unrecognised_oid, expanded_form, unexpected_private_key_tag, native_type_error,
  params_for,
}
use kxco_post_quantum.Seed.Der.{
  der_sequence, der_integer, der_octet_string, der_oid, der_seed_choice, der, subarray, expect_tag,
  read_length,
}

-- `asBytes` throws a TypeError.
abbrev pub bytes_of : Value → Result SeedError Bytes
bytes_of v = elim (as_bytes v) [ ok bs ↦ ok bs | err e ↦ err not_a_byte_array ]

-- The array that `exportSeedPkcs8` builds, before `Uint8Array.from`.
unfoldable pub seed_pkcs8 : ParamSet → Bytes → List ℕ
seed_pkcs8 a bytes = der der_sequence (
    der der_integer (0x00 ∷ [])
    ++ der der_sequence (der der_oid (params a).oid)
    ++ der der_octet_string (der der_seed_choice bytes))

unfoldable pub export_seed_pkcs8 : Value → Value → Result SeedError Bytes
unfolding params_for as_bytes seed_pkcs8
export_seed_pkcs8 alg seed = do
  p ← params_for alg
  bytes ← bytes_of seed
  require (length bytes == (params p).seed_bytes) (wrong_seed_length (length bytes))
  ok (uint8_from (seed_pkcs8 p bytes))

pub record SeedKey : Type 0 where
  pub alg : ParamSet
  pub seed : Bytes

-- `SEED_ALGORITHMS.find(...)`
abbrev pub find_oid : Bytes → Option ParamSet
find_oid oid = find (λ a. bytes_equal (uint8_from (params a).oid) oid) seed_algorithms

-- The tests on `inner`, the tag inside the private key.
unfoldable pub check_inner : Option ℕ → Result SeedError (Unit {0})
check_inner none = err native_type_error
check_inner (some inner) =
    if inner == der_octet_string
    then err expanded_form
    else if inner == der_seed_choice
    then ok tt
    else err (unexpected_private_key_tag inner)

-- From the private key on, with the parameter set that the OID names.
unfoldable pub import_private_key : Bytes → ParamSet → ℕ → Result SeedError SeedKey
unfolding expect_tag read_length check_inner
import_private_key buf alg i = do
  i ← expect_tag buf i der_octet_string
  (_, i) ← read_length buf i
  check_inner (get_elem? buf i)
  let i = i + 1
  (seed_len, i) ← read_length buf i
  require (seed_len == (params alg).seed_bytes) (wrong_seed_length seed_len)
  ok (record { alg = alg; seed = subarray buf i (i + seed_len) })

unfoldable pub import_seed_pkcs8 : Value → Result SeedError SeedKey
unfolding as_bytes expect_tag read_length bytes_equal import_private_key
import_seed_pkcs8 der8 = do
  buf ← bytes_of der8
  i ← expect_tag buf 0 der_sequence
  (_, i) ← read_length buf i
  i ← expect_tag buf i der_integer
  (version_len, i) ← read_length buf i
  let i = i + version_len
  i ← expect_tag buf i der_sequence
  (alg_id_len, i) ← read_length buf i
  let alg_id_end = i + alg_id_len
  i ← expect_tag buf i der_oid
  (oid_len, i) ← read_length buf i
  let oid = subarray buf i (i + oid_len)
  alg ← require_some (find_oid oid) unrecognised_oid
  import_private_key buf alg alg_id_end
