-- ===== src/Acvts/Respond.antt =====
-- The responders of conformance/acvts/responders.mjs.
use kxco_post_quantum.Prelude.{
  ℕ, ◌-◌, Bool, true, false, ◌&&◌, [], ◌∷◌, ◌++◌, List, Option, none, some, leb, if◌then◌else◌, map,
  replicate, Text, Bytes, codes, text_eq, Result, ok, err, require_some, ◌>>=◌,
}
use kxco_post_quantum.Codec.Hex.{bytes_to_hex}
use kxco_post_quantum.Acvts.{
  TestCase, Group, Prompt, SignerOptions, Signer, KemAlgorithm, SignatureAlgorithm, Library,
  kem_names, dsa_names, slh_names, hash_names, lookup, is_member,
}

pub data RespondError : Type 0 where
  no_backend no_internal unsupported_pre_hash backend_threw : ℕ → RespondError
  unknown_function refused : ℕ → RespondError
  no_responder : Text → Text → RespondError

-- The members of an answer besides `tcId`.
pub data Body : Type 0 where
  kem_keys signing_keys : (public_key secret_key : Text) → Body
  encapsulated : (c k : Text) → Body
  decapsulated : (k : Text) → Body
  signature : Text → Body
  test_passed : Bool → Body

pub record Answer : Type 0 where
  pub tc_id : ℕ
  pub body : Body

pub record GroupAnswer : Type 0 where
  pub tg_id : ℕ
  pub tests : List Answer

pub record Response : Type 0 where
  pub vs_id : ℕ
  pub algorithm : Text
  pub mode : Text
  pub revision : Text
  pub is_sample : Bool
  pub groups : List GroupAnswer

abbrev pub to_upper : ℕ → ℕ
to_upper c = if leb b'a' c && leb c b'z' then c - 32 else c

-- `hex`
unfoldable pub hex : Bytes → Text
hex bs = map to_upper (bytes_to_hex bs)

-- `bytes(t.name)`
unfoldable pub bytes : Library → TestCase → Text → Bytes
bytes lib t name = elim (t.hex_of name) [ none ↦ lib.from_hex [] | some h ↦ lib.from_hex h ]

-- `xs.map(f)`, where `f` may throw.
unfoldable pub map_all {ℓ κ} :
    {A : Type ℓ} {B : Type κ} → (A → Result RespondError B) → List A → Result RespondError (List B)
map_all f [] = ok []
map_all f (x ∷ xs) = do y ← f x; ys ← map_all f xs; ok (y ∷ ys)

-- `backend`
abbrev pub backend {ℓ} : {A : Type ℓ} → (Text → Option A) → Group → Result RespondError A
backend table g = require_some (table g.parameter_set) (no_backend g.tg_id)

abbrev pub first_of : Option Text → Option Text → Option Text
first_of (some s) o = some s
first_of none o = o

abbrev pub hash_signer :
    SignatureAlgorithm → ℕ → Option Text → Result RespondError (Signer × Option Bool)
hash_signer alg tg_id none = err (unsupported_pre_hash tg_id)
hash_signer alg tg_id (some name) = do
  made ← require_some (lookup hash_names alg.prehash name) (unsupported_pre_hash tg_id)
  signer ← require_some made (backend_threw tg_id)
  ok (signer, none)

-- `signerFor`, with the `externalMu` of its options.
unfoldable pub signer_for :
    SignatureAlgorithm → Group → TestCase → Result RespondError (Signer × Option Bool)
signer_for alg g t =
    let internal = do
      signer ← require_some alg.internal (no_internal g.tg_id)
      ok (signer, some g.external_mu)
    in if is_member g.signature_interface (codes "internal")
      then internal
      else if is_member g.pre_hash (codes "preHash")
      then hash_signer alg g.tg_id (first_of g.hash_alg t.hash_alg)
      else ok (alg.signer, none)

abbrev pub if_given : Library → TestCase → Text → Option Text → Option Bytes
if_given lib t name none = none
if_given lib t name (some h) = some (bytes lib t name)

-- The options but for the randomness.
unfoldable pub options_for : Library → Group → TestCase → Option Bool → SignerOptions
options_for lib g t external_mu = record {
  external_mu = external_mu;
  context =
      if is_member g.signature_interface (codes "internal")
      then none
      else if_given lib t (codes "context") (t.hex_of (codes "context"));
}

abbrev pub message_of : Library → Group → TestCase → Bytes
message_of lib g t =
    if g.external_mu then bytes lib t (codes "mu") else bytes lib t (codes "message")

abbrev pub randomness : Library → Group → TestCase → Text → Option Bool → Option Bytes
randomness lib g t rnd_field (some false) = some (bytes lib t rnd_field)
randomness lib g t rnd_field _ = none

abbrev pub or_threw {ℓ} : {A : Type ℓ} → Group → Option A → Result RespondError A
or_threw g o = require_some o (backend_threw g.tg_id)

abbrev pub answer : TestCase → Body → Answer
answer t b = record { tc_id = t.tc_id; body = b }

abbrev pub is_true : Option Bool → Bool
is_true none = false
is_true (some b) = b

module _ (lib : Library) where
  unfoldable pub sig_gen_test :
      Text → SignatureAlgorithm → Group → TestCase → Result RespondError Answer
  sig_gen_test rnd_field alg g t = do
    (signer, external_mu) ← signer_for alg g t
    sig ← or_threw g (
        signer.sign (message_of lib g t) (bytes lib t (codes "sk"))
          (options_for lib g t external_mu) (randomness lib g t rnd_field g.deterministic))
    ok (answer t (signature (hex sig)))

  -- A throw of the verification is a rejection.
  unfoldable pub sig_ver_test : SignatureAlgorithm → Group → TestCase → Result RespondError Answer
  sig_ver_test alg g t = do
    (signer, external_mu) ← signer_for alg g t
    ok (
        answer t (
          test_passed (
            is_true (
              signer.verify (bytes lib t (codes "signature")) (message_of lib g t)
                (bytes lib t (codes "pk")) (options_for lib g t external_mu)))))

  unfoldable pub kem_keygen_test : KemAlgorithm → Group → TestCase → Result RespondError Answer
  kem_keygen_test alg g t = do
    k ← or_threw g (alg.keygen (bytes lib t (codes "d") ++ bytes lib t (codes "z")))
    ok (answer t (kem_keys (hex k.public_key) (hex k.secret_key)))

  unfoldable pub dsa_keygen_test :
      SignatureAlgorithm → Group → TestCase → Result RespondError Answer
  dsa_keygen_test alg g t = do
    k ← or_threw g (alg.keygen (bytes lib t (codes "seed")))
    ok (answer t (signing_keys (hex k.public_key) (hex k.secret_key)))

  unfoldable pub slh_keygen_test :
      SignatureAlgorithm → Group → TestCase → Result RespondError Answer
  slh_keygen_test alg g t = do
    k ← or_threw g (
        alg.keygen (
          bytes lib t (codes "skSeed")
          ++ (bytes lib t (codes "skPrf") ++ bytes lib t (codes "pkSeed"))))
    ok (answer t (signing_keys (hex k.public_key) (hex k.secret_key)))

  abbrev pub encapsulation : KemAlgorithm → Group → TestCase → Result RespondError Answer
  encapsulation alg g t = do
    (c, k) ←
        or_threw g (alg.encapsulate (bytes lib t (codes "ek")) (some (bytes lib t (codes "m"))))
    ok (answer t (encapsulated (hex c) (hex k)))

  abbrev pub decapsulation : KemAlgorithm → Group → TestCase → Result RespondError Answer
  decapsulation alg g t = do
    k ← or_threw g (alg.decapsulate (bytes lib t (codes "c")) (bytes lib t (codes "dk")))
    ok (answer t (decapsulated (hex k)))

  abbrev pub returns {ℓ} : {A : Type ℓ} → Option A → Bool
  returns none = false
  returns (some a) = true

  unfoldable pub kem_test : KemAlgorithm → Group → TestCase → Result RespondError Answer
  kem_test alg g t =
      if is_member g.kind (codes "encapsulation")
      then encapsulation alg g t
      else if is_member g.kind (codes "decapsulation")
      then decapsulation alg g t
      else if is_member g.kind (codes "encapsulationKeyCheck")
      then ok (answer t (test_passed (returns (alg.encapsulate (bytes lib t (codes "ek")) none))))
      else if is_member g.kind (codes "decapsulationKeyCheck")
      then ok (
          answer t (
            test_passed (
              returns
                (alg.decapsulate (replicate alg.ciphertext_bytes 0) (bytes lib t (codes "dk"))))))
      else err (unknown_function g.tg_id)

  -- The frame that the responders share: the backend of the group, and an answer for each test.
  unfoldable pub answer_group {ℓ} :
      {A : Type ℓ}
      → (Text → Option A)
      → (A → Group → TestCase → Result RespondError Answer)
      → Group
      → Result RespondError GroupAnswer
  answer_group table test g = do
    alg ← backend table g
    answers ← map_all (test alg g) g.tests
    ok (record { tg_id = g.tg_id; tests = answers })

  -- `RESPONDERS[key]`
  unfoldable pub responder : Text → Text → Option (Group → Result RespondError GroupAnswer)
  responder algorithm mode =
      let key = algorithm ++ b'/' ∷ mode in
      let kem = lookup kem_names lib.kem in
      let dsa = lookup dsa_names lib.dsa in
      let slh = lookup slh_names lib.slh in
      if text_eq key (codes "ML-KEM/keyGen")
      then some (answer_group kem kem_keygen_test)
      else if text_eq key (codes "ML-KEM/encapDecap")
      then some (answer_group kem kem_test)
      else if text_eq key (codes "ML-DSA/keyGen")
      then some (answer_group dsa dsa_keygen_test)
      else if text_eq key (codes "ML-DSA/sigGen")
      then some (answer_group dsa (sig_gen_test (codes "rnd")))
      else if text_eq key (codes "ML-DSA/sigVer")
      then some (answer_group dsa sig_ver_test)
      else if text_eq key (codes "SLH-DSA/keyGen")
      then some (answer_group slh slh_keygen_test)
      else if text_eq key (codes "SLH-DSA/sigGen")
      then some (answer_group slh (sig_gen_test (codes "additionalRandomness")))
      else if text_eq key (codes "SLH-DSA/sigVer")
      then some (answer_group slh sig_ver_test)
      else none

  -- `respond`
  unfoldable pub respond : Prompt → Result RespondError Response
  respond p = do
    answering ← require_some (responder p.algorithm p.mode) (no_responder p.algorithm p.mode)
    groups ← map_all answering p.groups
    ok (record {
      vs_id = p.vs_id;
      algorithm = p.algorithm;
      mode = p.mode;
      revision = p.revision;
      is_sample = p.is_sample;
      groups = groups;
    })
