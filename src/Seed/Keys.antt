-- ===== src/Seed/Keys.antt =====
-- `keypairFromSeed` and `seedFromMaster` of src/seed.js. Key generation of
-- `@noble/post-quantum` is a parameter.
pub mod Laws
use kxco_post_quantum.Prelude.{
  ℕ, Bool, List, ◌==◌, if◌then◌else◌, length, Bytes, Result, ok, err, require, ◌>>=◌, ◌>>◌,
}
use kxco_post_quantum.Value.{Value, text, as_bytes, is_nullish}
use kxco_post_quantum.Derive.{Hkdf, DeriveError, derive_seed}
use kxco_post_quantum.Seed.Params.{
  ParamSet, Params, params, SeedError, wrong_seed_length, params_for,
}
use kxco_post_quantum.Seed.Pkcs8.{bytes_of}

pub record KeyPair : Type 0 where
  pub public_key : Bytes
  pub secret_key : Bytes

abbrev pub Keygen : Type 0
Keygen = ParamSet → Bytes → KeyPair

pub record SeededKey : Type 0 where
  pub public_key : Bytes
  pub secret_key : Bytes
  pub seed : Bytes

unfoldable pub keypair_from_seed : Keygen → Value → Value → Result SeedError SeededKey
unfolding params_for as_bytes
keypair_from_seed keygen alg seed = do
  p ← params_for alg
  bytes ← bytes_of seed
  require (length bytes == (params p).seed_bytes) (wrong_seed_length (length bytes))
  let k = keygen p bytes
  ok (record { public_key = k.public_key; secret_key = k.secret_key; seed = bytes })

-- What `seedFromMaster` throws: its own error, or that of `deriveSeed`.
pub data MasterError : Type 0 where
  seed_error : SeedError → MasterError
  derive_error : DeriveError → MasterError

abbrev pub or_seed_error {ℓ} : {A : Type ℓ} → Result SeedError A → Result MasterError A
or_seed_error (ok a) = ok a
or_seed_error (err e) = err (seed_error e)

abbrev pub or_derive_error {ℓ} : {A : Type ℓ} → Result DeriveError A → Result MasterError A
or_derive_error (ok a) = ok a
or_derive_error (err e) = err (derive_error e)

unfoldable pub seed_from_master : Hkdf → Value → Value → Value → Result MasterError Bytes
unfolding params_for derive_seed
seed_from_master hkdf alg master info = do
  p ← or_seed_error (params_for alg)
  or_derive_error (
      derive_seed hkdf master (if is_nullish info then text (params p).info else info)
        (params p).seed_bytes)
