-- ===== src/Tests/Backends.antt =====
-- The choice of a backend at a small OpenSSL.
use kxco_post_quantum.Prelude.{
  ◌≡◌, ap, ◌∷◌, inl, Bytes, ok, refl, true, false, [], Option, none, some, codes, text_eq,
  if◌then◌else◌,
}
use mathlib.Core.Path.{subst}
use kxco_post_quantum.Codec.Equal.{bytes_equal}
use kxco_post_quantum.Native.{
  Crypto, PrivateKey, PublicKey, pkcs8_key, spki_key, probe, get_spec, probe_pair, probe_context,
  supports_context, private_key_object,
}
use kxco_post_quantum.Native.Laws.{HonoursContext}
use kxco_post_quantum.Native.Calls.{Native, native, supports, Encapsulated}
use kxco_post_quantum.Kem
use kxco_post_quantum.Kem.{
  KemPrimitives, KemSetup, Sealed, encapsulate_raw, encapsulate, decapsulate, ml_kem_768,
}
use kxco_post_quantum.Kem.RoundTrip.{Opens, Interoperable, decapsulate-encapsulate}
use kxco_post_quantum.Signature.{Setup, uses_native}
use kxco_post_quantum.Signature.Backend.{uses_native-HonoursContext}

abbrev pair : Option (PrivateKey × PublicKey)
pair = some (pkcs8_key [], spki_key [])

-- It has ML-DSA-44 only, and its signature is the context.
abbrev crypto : Crypto
crypto = record {
  generate = λ name. if text_eq name (codes "ml-dsa-44") then some (codes "0,///0!!") else none;
  generate_pair = λ random name. if text_eq name (codes "ml-dsa-44") then pair else none;
  imports_jwk = λ alg. false;
  sign = λ key message context. context;
  verify = λ key message context sig. elim context [
    | none ↦ some false
    | some c ↦ some (bytes_equal sig c)
  ];
  encapsulate = λ rnd key. none;
  decapsulate = λ key c. none;
}

abbrev table : Native
table = record {
  crypto = crypto;
  supported = probe crypto;
  honours_context = true;
  has_buffer = true;
}

abbrev setup : Setup
setup = record {
  native_alg = codes "ML-DSA-44";
  js = record { sign = λ sk msg ctx. none; verify = λ pk msg sig ctx. none };
  native = some table;
}

made : some table ≡ native none crypto (supports_context crypto [] none).0 true
unfolding native supports_context probe_context probe_pair probe get_spec bytes_equal
made = refl

used : uses_native setup (some (codes "c")) ≡ some table
unfolding uses_native supports probe get_spec
used = refl

uses_native-HonoursContext_example :
    (table.crypto ≡ crypto)
    × ((private_key : PrivateKey) × (public_key : PublicKey) × (crypto.generate_pair []
            (codes "ml-dsa-44")
          ≡ some (private_key, public_key))
        × HonoursContext crypto private_key public_key)
uses_native-HonoursContext_example =
    uses_native-HonoursContext none crypto [] true setup (codes "c") table made used

-- A scheme whose secret and ciphertext are the random bytes, with an OpenSSL that has ML-KEM-768.
abbrev sealing : Crypto
sealing = record {
  generate = λ name. if text_eq name (codes "ml-kem-768") then some (codes "0,///0!!") else none;
  generate_pair = λ random name. none;
  imports_jwk = λ alg. false;
  sign = λ key message context. none;
  verify = λ key message context sig. none;
  encapsulate = λ rnd key. some (rnd, rnd);
  decapsulate = λ key c. some c;
}

abbrev plain : KemPrimitives
plain = record {
  encapsulate = λ random key. some (record { cipher_text = random; shared_secret = random });
  decapsulate = λ cipher_text key. some cipher_text;
}

abbrev kem_table : Native
kem_table = record {
  crypto = sealing;
  supported = probe sealing;
  honours_context = false;
  has_buffer = true;
}

abbrev sender : KemSetup
sender = ml_kem_768 plain none

abbrev receiver : KemSetup
receiver = ml_kem_768 plain (some kem_table)

receiver-Opens : (r : Encapsulated) → r.cipher_text ≡ r.shared_secret → Opens receiver (9 ∷ []) r
receiver-Opens r h = record {
  js_opens = ap some h;
  native_opens = λ n spec there found.
      subst
        (λ (x : Native).
          x.crypto.decapsulate (private_key_object spec (9 ∷ []) none) r.cipher_text
          ≡ some r.shared_secret)
        (same_table n there) (ap some h);
}
  where
    same_table : (n : Native) → ◌≡◌ {A = Option Native} (some kem_table) (some n) → kem_table ≡ n
    same_table n p = cc

sealing-Interoperable : Interoperable sender receiver (8 ∷ []) (9 ∷ [])
sealing-Interoperable = record {
  js_seals = λ random r h.
      subst (Opens receiver (9 ∷ [])) (same_sealed random r h) (receiver-Opens _ refl);
  native_seals = λ n spec random cipher_text shared_secret there found h. cc;
}
  where
    same_sealed :
        (random : Bytes) (r : Encapsulated)
        → ◌≡◌ {A = Option Encapsulated}
            (some (record { cipher_text = random; shared_secret = random }))
            (some r)
        → record { cipher_text = random; shared_secret = random } ≡ r
    same_sealed random r p = cc

abbrev sealed_bytes : Sealed
sealed_bytes = record {
  ciphertext = 1 ∷ 2 ∷ [];
  cipher_text = 1 ∷ 2 ∷ [];
  shared_secret = 1 ∷ 2 ∷ [];
}

probed : some kem_table ≡ native none sealing false true
unfolding native probe
probed = refl

seals : encapsulate sender (1 ∷ 2 ∷ []) (8 ∷ []) ≡ ok sealed_bytes
unfolding encapsulate encapsulate_raw Kem.uses_native
seals = refl

decapsulate-encapsulate_example :
    (decapsulate receiver (1 ∷ 2 ∷ []) (9 ∷ []) ≡ ok (1 ∷ 2 ∷ []))
    × (decapsulate receiver (1 ∷ 2 ∷ []) (9 ∷ []) ≡ ok (1 ∷ 2 ∷ []))
decapsulate-encapsulate_example =
    decapsulate-encapsulate sender receiver none sealing false true (1 ∷ 2 ∷ []) (8 ∷ []) (9 ∷ [])
      sealed_bytes (inl refl) probed sealing-Interoperable seals
