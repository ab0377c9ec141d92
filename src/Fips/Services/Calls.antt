-- ===== src/Fips/Services/Calls.antt =====
-- The service table that `start` of src/fips/module.js returns, and `start` itself.
use kxco_post_quantum.Prelude.{
  ℕ, Bool, false, List, [], Option, none, some, ◌==◌, if◌then◌else◌, length, Bytes, codes, Result,
  ok, err,
}
use kxco_post_quantum.Value.{Value}
use kxco_post_quantum.Context.{Options}
use kxco_post_quantum.Codec.Equal.{bytes_equal}
use kxco_post_quantum.Fips.Entropy.{get_entropy}
use kxco_post_quantum.Fips.Drbg.{Drbg, DrbgError, fresh, instantiate, uninstantiate}
use kxco_post_quantum.Fips.Services.{
  World, M, Outcome, value, throw, fatal, usage, drbg_instantiation_failed, kem_pct_failed,
  dsa_pct_failed, self_test_failed, not_offered, not_bytes, wrong_seed_length, algorithm_threw,
  ◌>>=◌, ◌>>◌, return, ensure, some_or, Set, kem, dsa, KemSet, DsaSet, KeyPair, Encapsulated,
  Algorithms, kem_of, dsa_of, set_of, to_bytes, require_bytes, context_of,
}
use kxco_post_quantum.Fips.Services.Random.{random}

pub record NewKey : Type 0 where
  pub alg : Set
  pub public_key : Bytes
  pub secret_key : Bytes
  pub seed : Bytes

-- The verdict of a pairwise test: a call that throws, but for a fatal error, fails it.
abbrev pub kem_agrees : Algorithms → KemSet → KeyPair → Bytes → Bool
kem_agrees a k keys m = elim (a.kem_encapsulate k keys.public_key m) [
  | none ↦ false
  | some e ↦ elim (a.kem_decapsulate k e.cipher_text keys.secret_key) [
    | none ↦ false
    | some recovered ↦ bytes_equal e.shared_secret recovered
  ]
]

abbrev pub is_true : Option Bool → Bool
is_true none = false
is_true (some b) = b

abbrev pub pct_message : Bytes
pct_message = codes "kxco-post-quantum/fips pairwise consistency test"

abbrev pub dsa_agrees : Algorithms → DsaSet → KeyPair → Bytes → Bool
dsa_agrees a d keys rnd = elim (a.dsa_sign d pct_message keys.secret_key [] rnd) [
  | none ↦ false
  | some signature ↦ is_true (a.dsa_verify d signature pct_message keys.public_key [])
]

unfoldable pub pct_kem : Algorithms → KemSet → KeyPair → M (Unit {0})
pct_kem a k keys = do m ← random a.hmac512 32; ensure (kem_agrees a k keys m) (fatal kem_pct_failed)

unfoldable pub pct_dsa : Algorithms → DsaSet → KeyPair → M (Unit {0})
pct_dsa a d keys = do
  rnd ← random a.hmac512 32
  ensure (dsa_agrees a d keys rnd) (fatal dsa_pct_failed)

abbrev pub new_key : Set → KeyPair → Bytes → NewKey
new_key s keys seed = record {
  alg = s;
  public_key = keys.public_key;
  secret_key = keys.secret_key;
  seed = seed;
}

unfoldable pub generate_for : Algorithms → Set → M NewKey
generate_for a (kem k) = do
  seed ← random a.hmac512 64
  let keys = a.kem_keygen k seed
  pct_kem a k keys
  return (new_key (kem k) keys seed)
generate_for a (dsa d) = do
  seed ← random a.hmac512 32
  let keys = a.dsa_keygen d seed
  pct_dsa a d keys
  return (new_key (dsa d) keys seed)

unfoldable pub generate_keypair : Algorithms → Value → M NewKey
generate_keypair a alg = do s ← some_or (set_of alg) (usage not_offered); generate_for a s

abbrev pub expand : Algorithms → Set → Bytes → KeyPair
expand a (kem k) seed = a.kem_keygen k seed
expand a (dsa d) seed = a.dsa_keygen d seed

abbrev pub seed_length : Set → ℕ
seed_length (kem k) = 64
seed_length (dsa d) = 32

unfoldable pub keypair_from_seed : Algorithms → Value → Value → M KeyPair
keypair_from_seed a alg seed = do
  s ← some_or (set_of alg) (usage not_offered)
  bytes ← some_or (require_bytes seed) (usage not_bytes)
  ensure (length bytes == seed_length s) (usage wrong_seed_length)
  return (expand a s bytes)

unfoldable pub encapsulate : Algorithms → Value → Value → M Encapsulated
encapsulate a alg public_key = do
  k ← some_or (kem_of alg) (usage not_offered)
  key ← some_or (require_bytes public_key) (usage not_bytes)
  m ← random a.hmac512 32
  some_or (a.kem_encapsulate k key m) (usage algorithm_threw)

unfoldable pub decapsulate : Algorithms → Value → Value → Value → M Bytes
decapsulate a alg cipher_text secret_key = do
  k ← some_or (kem_of alg) (usage not_offered)
  ct ← some_or (require_bytes cipher_text) (usage not_bytes)
  sk ← some_or (require_bytes secret_key) (usage not_bytes)
  some_or (a.kem_decapsulate k ct sk) (usage algorithm_threw)

abbrev pub lift_outcome {ℓ} : {A : Type ℓ} → Outcome A → M A
lift_outcome o w = (o, w)

unfoldable pub sign : Algorithms → Value → Value → Value → Options → M Bytes
sign a alg secret_key message opts = do
  d ← some_or (dsa_of alg) (usage not_offered)
  sk ← some_or (require_bytes secret_key) (usage not_bytes)
  context ← lift_outcome (context_of opts)
  msg ← some_or (to_bytes message) (usage not_bytes)
  rnd ← random a.hmac512 32
  some_or (a.dsa_sign d msg sk context rnd) (usage algorithm_threw)

unfoldable pub verify : Algorithms → Value → Value → Value → Value → Options → M Bool
verify a alg public_key message signature opts = do
  d ← some_or (dsa_of alg) (usage not_offered)
  context ← lift_outcome (context_of opts)
  msg ← some_or (to_bytes message) (usage not_bytes)
  pk ← some_or (require_bytes public_key) (usage not_bytes)
  sig ← some_or (require_bytes signature) (usage not_bytes)
  return (is_true (a.dsa_verify d sig msg pk context))

-- `runCasts`, by the verdict of the known-answer tests of src/fips/selftest.js.
unfoldable pub run_casts : Bool → M (Unit {0})
run_casts passed = ensure passed (fatal self_test_failed)

unfoldable pub destroy : World → World
destroy w = record w { drbg = uninstantiate w.drbg }

abbrev pub personalization : Bytes
personalization = codes "kxco-post-quantum/fips HMAC_DRBG v1"

abbrev pub or_fatal : Result DrbgError Drbg → Outcome Drbg
or_fatal (ok d) = value d
or_fatal (err e) = throw (fatal drbg_instantiation_failed)

-- From the two reads of the device on.
unfoldable pub instantiate_from : Algorithms → Option Bytes → Option Bytes → Outcome Drbg
instantiate_from a (some entropy) (some salt) =
    or_fatal (instantiate a.hmac512 entropy salt personalization)
instantiate_from a first second = throw (fatal drbg_instantiation_failed)

abbrev pub second_read : Option Bytes → List Bytes → Option Bytes × List Bytes
second_read none device = (none, device)
second_read (some entropy) device = get_entropy 32 device

abbrev pub with_drbg : Outcome Drbg → List Bytes → Outcome (Unit {0}) × World
with_drbg (value d) device = (value tt, record { drbg = d; device = device })
with_drbg (throw e) device = (throw e, record { drbg = fresh; device = device })

-- `start`: the algorithm self-tests, then the generator.
unfoldable pub start : Algorithms → Bool → List Bytes → Outcome (Unit {0}) × World
start a casts_pass device =
    let (entropy, device1) = get_entropy 48 device in
    let (salt, device2) = second_read entropy device1 in
    if casts_pass
    then with_drbg (instantiate_from a entropy salt) device2
    else (throw (fatal self_test_failed), record { drbg = fresh; device = device })
