-- ===== src/Signature/Sets.antt =====
-- The three signature modules by their names and defaults, and `keypairFromMaster` of each.
use kxco_post_quantum.Prelude.{ℕ, Option, Text, Bytes, codes, Result, ok, ◌>>=◌}
use kxco_post_quantum.Value.{Value, text, undefined}
use kxco_post_quantum.Native.Calls.{Native}
use kxco_post_quantum.Derive.{Hkdf, DeriveError, derive_seed}
use kxco_post_quantum.Seed.Keys.{KeyPair, SeededKey}
use kxco_post_quantum.Signature.{Setup, Primitives}

-- A default argument stands in for `undefined` only.
abbrev pub with_default : Text → Value → Value
with_default s undefined = text s
with_default s v = v

unfoldable pub keypair_from_master :
    Hkdf → (Bytes → KeyPair) → ℕ → Text → Value → Value → Result DeriveError SeededKey
unfolding derive_seed
keypair_from_master hkdf keygen seed_bytes default_info master info = do
  seed ← derive_seed hkdf master (with_default default_info info) seed_bytes
  let k = keygen seed
  ok (record { public_key = k.public_key; secret_key = k.secret_key; seed = seed })

module _ (js : Primitives) (native : Option Native) where
  -- src/ml-dsa.js
  abbrev pub ml_dsa_65 : Setup
  ml_dsa_65 = record { native_alg = codes "ML-DSA-65"; js = js; native = native }

  -- src/ml-dsa-87.js
  abbrev pub ml_dsa_87 : Setup
  ml_dsa_87 = record { native_alg = codes "ML-DSA-87"; js = js; native = native }

  -- src/slh-dsa.js
  abbrev pub slh_dsa : Setup
  slh_dsa = record { native_alg = codes "SLH-DSA-SHA2-192s"; js = js; native = native }

module _ (hkdf : Hkdf) (keygen : Bytes → KeyPair) where
  abbrev pub ml_dsa_65_keypair : Value → Value → Result DeriveError SeededKey
  ml_dsa_65_keypair = keypair_from_master hkdf keygen 32 (codes "ml-dsa-65-v1")

  abbrev pub ml_dsa_87_keypair : Value → Value → Result DeriveError SeededKey
  ml_dsa_87_keypair = keypair_from_master hkdf keygen 32 (codes "ml-dsa-87-v1")

  abbrev pub ml_kem_768_keypair : Value → Value → Result DeriveError SeededKey
  ml_kem_768_keypair = keypair_from_master hkdf keygen 64 (codes "ml-kem-768-v1")

  abbrev pub ml_kem_1024_keypair : Value → Value → Result DeriveError SeededKey
  ml_kem_1024_keypair = keypair_from_master hkdf keygen 64 (codes "ml-kem-1024-v1")

-- `keypairFromMaster` of src/slh-dsa.js returns no seed; the seed's length is the library's.
unfoldable pub slh_dsa_keypair :
    Hkdf → (Bytes → KeyPair) → ℕ → Value → Value → Result DeriveError KeyPair
unfolding derive_seed
slh_dsa_keypair hkdf keygen seed_bytes master info = do
  seed ← derive_seed hkdf master (with_default (codes "slh-dsa-sha2-192s-v1") info) seed_bytes
  ok (keygen seed)
