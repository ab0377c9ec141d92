-- ===== src/Acvts/OpenSsl.antt =====
-- conformance/acvts/responders-native.mjs: the same prompts answered by OpenSSL, and refused where
-- node:crypto lacks the control that an answer needs. The encodings of keys are those of
-- src/_native.node.js. A new key of a type always gives the same AlgorithmIdentifier, so the cache of it
-- is left out.
pub mod Laws
use kxco_post_quantum.Prelude.{
  ℕ, Bool, true, false, [], ◌∷◌, ◌++◌, List, Option, none, some, if◌then◌else◌, Text, Bytes, codes,
  text_eq, Result, ok, err, require_some, ◌>>=◌, ◌>>◌,
}
use kxco_post_quantum.Native.{Crypto, PrivateKey, PublicKey, pkcs8_key, spki_key}
use kxco_post_quantum.Native.Encoding.{algorithm_identifier, to_pkcs8, to_spki}
use kxco_post_quantum.Acvts.{TestCase, Group, Prompt, Library, is_member}
use kxco_post_quantum.Acvts.Respond.{
  RespondError, no_backend, refused, unknown_function, no_responder, Body, decapsulated,
  test_passed, Answer, GroupAnswer, Response, hex, bytes, map_all, if_given, or_threw, answer,
  is_true, returns,
}

-- `node:crypto`, and whether it takes a private key.
pub record OpenSsl : Type 0 where
  pub crypto : Crypto
  pub takes_key : PrivateKey → Bool

-- `NODE_ALG`
unfoldable pub node_name : Text → Option Text
node_name s =
    if text_eq s (codes "ML-KEM-512")
    then some (codes "ml-kem-512")
    else if text_eq s (codes "ML-KEM-768")
    then some (codes "ml-kem-768")
    else if text_eq s (codes "ML-KEM-1024")
    then some (codes "ml-kem-1024")
    else if text_eq s (codes "ML-DSA-44")
    then some (codes "ml-dsa-44")
    else if text_eq s (codes "ML-DSA-65")
    then some (codes "ml-dsa-65")
    else if text_eq s (codes "ML-DSA-87")
    then some (codes "ml-dsa-87")
    else if text_eq s (codes "SLH-DSA-SHA2-128f")
    then some (codes "slh-dsa-sha2-128f")
    else if text_eq s (codes "SLH-DSA-SHA2-192s")
    then some (codes "slh-dsa-sha2-192s")
    else if text_eq s (codes "SLH-DSA-SHAKE-256f")
    then some (codes "slh-dsa-shake-256f")
    else none

-- `nodeAlg`
abbrev pub node_alg : Group → Result RespondError Text
node_alg g = require_some (node_name g.parameter_set) (no_backend g.tg_id)

abbrev pub refuse_if : Bool → Group → Result RespondError (Unit {0})
refuse_if true g = err (refused g.tg_id)
refuse_if false g = ok tt

unfoldable pub signature_gate : Group → Result RespondError (Unit {0})
signature_gate g = do
  refuse_if (is_member g.signature_interface (codes "internal")) g
  refuse_if g.external_mu g
  refuse_if (is_member g.pre_hash (codes "preHash")) g

module _ (lib : Library) (ssl : OpenSsl) where
  -- `algid`
  unfoldable pub algid : Text → Option Bytes
  algid name = elim (ssl.crypto.generate name) [
    | none ↦ none
    | some exported ↦ some (algorithm_identifier exported)
  ]

  unfoldable pub public_key : Text → Bytes → Option PublicKey
  public_key name raw = elim (algid name) [
    | none ↦ none
    | some id ↦ some (spki_key (to_spki id raw))
  ]

  unfoldable pub from_expanded : Text → Bytes → Option PrivateKey
  from_expanded name sk = elim (algid name) [
    | none ↦ none
    | some id ↦
        let key : PrivateKey = pkcs8_key (to_pkcs8 id sk) in
        if ssl.takes_key key then some key else none
  ]

  -- The `try` block of `sigVer`: `none` is a throw.
  unfoldable pub native_verify : Text → (key message sig : Bytes) → Option Bytes → Option Bool
  native_verify name key message sig context = elim (public_key name key) [
    | none ↦ none
    | some k ↦ ssl.crypto.verify k message context sig
  ]

  unfoldable pub native_sig_ver_test : Text → TestCase → Result RespondError Answer
  native_sig_ver_test name t = ok (
      answer t (
        test_passed (
          is_true (
            native_verify name (bytes lib t (codes "pk")) (bytes lib t (codes "message"))
              (bytes lib t (codes "signature"))
              (if_given lib t (codes "context") (t.hex_of (codes "context")))))))

  unfoldable pub native_sig_ver : Group → Result RespondError GroupAnswer
  native_sig_ver g = do
    name ← node_alg g
    signature_gate g
    answers ← map_all (native_sig_ver_test name) g.tests
    ok (record { tg_id = g.tg_id; tests = answers })

  -- The groups that no call of node:crypto answers.
  abbrev pub refuse_group : Group → Result RespondError GroupAnswer
  refuse_group g = do name ← node_alg g; err (refused g.tg_id)

  abbrev pub encapsulates : Option PublicKey → Bool
  encapsulates none = false
  encapsulates (some k) = returns lib (ssl.crypto.encapsulate [] k)

  abbrev pub decapsulates : Option PrivateKey → Bytes → Option Bytes
  decapsulates none c = none
  decapsulates (some k) c = ssl.crypto.decapsulate k c

  unfoldable pub native_kem_test : Text → Group → TestCase → Result RespondError Answer
  native_kem_test name g t =
      let opened =
        decapsulates (from_expanded name (bytes lib t (codes "dk"))) (bytes lib t (codes "c")) in
      let decapsulation = do k ← or_threw g opened; ok (answer t (decapsulated (hex k)))
      in if is_member g.kind (codes "decapsulation")
        then decapsulation
        else if is_member g.kind (codes "encapsulationKeyCheck")
        then ok (answer t (test_passed (encapsulates (public_key name (bytes lib t (codes "ek"))))))
        else if is_member g.kind (codes "decapsulationKeyCheck")
        then ok
            (answer t (test_passed (returns lib (from_expanded name (bytes lib t (codes "dk"))))))
        else err (unknown_function g.tg_id)

  unfoldable pub native_kem : Group → Result RespondError GroupAnswer
  native_kem g = do
    name ← node_alg g
    refuse_if (is_member g.kind (codes "encapsulation")) g
    answers ← map_all (native_kem_test name g) g.tests
    ok (record { tg_id = g.tg_id; tests = answers })

  unfoldable pub native_responder : Text → Text → Option (Group → Result RespondError GroupAnswer)
  native_responder algorithm mode =
      let key = algorithm ++ b'/' ∷ mode in
      if text_eq key (codes "ML-KEM/keyGen")
      then some refuse_group
      else if text_eq key (codes "ML-KEM/encapDecap")
      then some native_kem
      else if text_eq key (codes "ML-DSA/keyGen")
      then some refuse_group
      else if text_eq key (codes "ML-DSA/sigGen")
      then some refuse_group
      else if text_eq key (codes "ML-DSA/sigVer")
      then some native_sig_ver
      else if text_eq key (codes "SLH-DSA/keyGen")
      then some refuse_group
      else if text_eq key (codes "SLH-DSA/sigGen")
      then some refuse_group
      else if text_eq key (codes "SLH-DSA/sigVer")
      then some native_sig_ver
      else none

  unfoldable pub native_respond : Prompt → Result RespondError Response
  native_respond p = do
    answering ← require_some (native_responder p.algorithm p.mode) (no_responder p.algorithm p.mode)
    groups ← map_all answering p.groups
    ok (record {
      vs_id = p.vs_id;
      algorithm = p.algorithm;
      mode = p.mode;
      revision = p.revision;
      is_sample = p.is_sample;
      groups = groups;
    })
