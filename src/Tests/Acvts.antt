-- ===== src/Tests/Acvts.antt =====
-- The ACVP responder at a small library.
use kxco_post_quantum.Prelude.{
  ℕ, ◌≡◌, ◌<◌, ◌/◌, ◌%◌, refl, sym, ap, Bool, ok-injective, true, false, [], ◌∷◌, Option, none,
  some, length, map, arith, All, IsByte, Text, Bytes, codes, text_eq, if◌then◌else◌, ok,
}
use mathlib.Core.Path.{subst}
use kxco_post_quantum.Codec.Equal.{bytes_equal, bytes_equal_iff}
use kxco_post_quantum.Codec.Hex.{
  hex_digit, to_string16, pad_start2, hex_value, parse_pairs, bytes_to_hex,
}
use kxco_post_quantum.Codec.Hex.Laws.{bytes_to_hex-cons}
use kxco_post_quantum.Acvts.{
  TestCase, Group, Prompt, Signer, KemAlgorithm, SignatureAlgorithm, Library,
}
use kxco_post_quantum.Acvts.Respond.{
  signature, test_passed, Response, to_upper, hex, bytes, map_all, signer_for, options_for, answer,
  sig_gen_test, sig_ver_test, answer_group, responder, respond, GroupAnswer,
}
use kxco_post_quantum.Acvts.OpenSsl.{
  OpenSsl, node_name, signature_gate, algid, public_key, native_verify, native_sig_ver_test,
  native_sig_ver,
}
use kxco_post_quantum.Acvts.OpenSsl.Laws.{AcceptsAlike, answer_group-native_sig_ver}
use kxco_post_quantum.Acvts.Laws.{asked, answered, respond-answers}
use kxco_post_quantum.Acvts.Signed.{verifying, IsSound, sig_ver_test-sig_gen_test}

abbrev short : Bytes → Bytes
short bs = (length bs % 256) ∷ []

abbrev signer : Signer
signer = record {
  sign = λ message sk opts rnd. some (short message);
  verify = λ sig message pk opts. some (bytes_equal sig (short message));
}

abbrev dsa : SignatureAlgorithm
dsa = record {
  keygen = λ seed. none;
  signer = signer;
  internal = some signer;
  prehash = λ name. some signer;
}

abbrev kem : KemAlgorithm
kem = record {
  keygen = λ seed. none;
  encapsulate = λ key m. none;
  decapsulate = λ c key. none;
  ciphertext_bytes = 4;
}

abbrev lib : Library
lib = record { kem = λ name. kem; dsa = λ name. dsa; slh = λ name. dsa; from_hex = parse_pairs }

upper_digit : (d : ℕ) → d < 16 → hex_value (to_upper (hex_digit d)) ≡ d
unfolding hex_value hex_digit
upper_digit d h = ground arith

reads_hex : (bs : Bytes) → All IsByte bs → parse_pairs (hex bs) ≡ bs
unfolding hex parse_pairs
reads_hex [] h = unfold bytes_to_hex in refl
reads_hex (b ∷ bs) (h, hs) =
    rw
      (
        bytes_to_hex-cons b bs h,
        upper_digit (b / 16) (omega arith),
        upper_digit (b % 16) (omega arith),
        reads_hex bs hs,
      )
      (ap (λ c. c ∷ bs) (omega arith))

same_bytes : (a b : Bytes) → some a ≡ some b → a ≡ b
same_bytes a b h = cc

signer-IsSound : (secret_key public_key : Bytes) → IsSound signer secret_key public_key
signer-IsSound secret_key public_key = record {
  accepts = λ message sig opts rnd h.
      ap some ((bytes_equal_iff sig (short message)).1 (sym (same_bytes (short message) sig h)));
  signs_bytes = λ message sig opts rnd h.
      subst (All IsByte) (same_bytes (short message) sig h) (omega arith, tt);
}

abbrev test_case : ℕ → TestCase
test_case n = record {
  tc_id = n;
  hex_of = λ name.
      if text_eq name (codes "message")
      then some (codes "0102AB")
      else if text_eq name (codes "sk")
      then some (codes "07")
      else none;
  hash_alg = none;
}

abbrev group : Group
group = record {
  tg_id = 5;
  parameter_set = codes "ML-DSA-65";
  kind = none;
  signature_interface = some (codes "external");
  pre_hash = some (codes "pure");
  hash_alg = none;
  external_mu = false;
  deterministic = some true;
  tests = test_case 1 ∷ test_case 2 ∷ [];
}

abbrev prompt : Prompt
prompt = record {
  algorithm = codes "ML-DSA";
  mode = codes "sigGen";
  vs_id = 3;
  revision = codes "FIPS204";
  is_sample = true;
  groups = group ∷ [];
}

abbrev response : Response
response = record {
  vs_id = 3;
  algorithm = codes "ML-DSA";
  mode = codes "sigGen";
  revision = codes "FIPS204";
  is_sample = true;
  groups =
      record {
        tg_id = 5;
        tests =
            answer (test_case 1) (signature (codes "03"))
            ∷ answer (test_case 2) (signature (codes "03"))
            ∷ [];
      }
      ∷ [];
}

responds : respond lib prompt ≡ ok response
unfolding respond responder answer_group map_all sig_gen_test signer_for options_for bytes hex
    bytes_to_hex to_string16 hex_digit pad_start2 parse_pairs hex_value
responds = refl

respond-answers_example : map answered response.groups ≡ map asked prompt.groups
respond-answers_example = respond-answers lib prompt response responds

signs :
    sig_gen_test lib (codes "rnd") dsa group (test_case 1)
    ≡ ok (answer (test_case 1) (signature (codes "03")))
unfolding sig_gen_test signer_for options_for bytes hex bytes_to_hex to_string16 hex_digit
    pad_start2 parse_pairs hex_value
signs = refl

sound :
    (s : Signer) (mu : Option Bool)
    → signer_for dsa group (test_case 1) ≡ ok (s, mu)
    → IsSound s (bytes lib (test_case 1) (codes "sk")) (9 ∷ [])
unfolding signer_for
sound s mu h =
    subst (λ x. IsSound x (bytes lib (test_case 1) (codes "sk")) (9 ∷ []))
      (ap (λ (p : Signer × Option Bool). p.0) (ok-injective h)) (signer-IsSound _ (9 ∷ []))

sig_ver_test-sig_gen_test_example :
    (sig : Text) × (answer (test_case 1) (signature (codes "03"))
      ≡ answer (test_case 1) (signature sig))
    × (sig_ver_test lib dsa group (verifying (hex (9 ∷ [])) sig (test_case 1))
        ≡ ok (answer (test_case 1) (test_passed true)))
sig_ver_test-sig_gen_test_example =
    sig_ver_test-sig_gen_test lib (codes "rnd") dsa group (test_case 1) (9 ∷ [])
      (answer (test_case 1) (signature (codes "03"))) reads_hex (omega arith, tt) sound signs

abbrev ssl : OpenSsl
ssl = record {
  crypto = record {
    generate = λ name. some (codes "0,///0!!");
    generate_pair = λ random name. none;
    imports_jwk = λ alg. false;
    sign = λ key message context. none;
    verify = λ key message context sig. some (bytes_equal sig (short message));
    encapsulate = λ rnd key. none;
    decapsulate = λ key c. none;
  };
  takes_key = λ key. true;
}

alike : (name : Text) → AcceptsAlike lib ssl name dsa
unfolding native_verify public_key algid
alike name key message sig context = refl

abbrev native_answer : GroupAnswer
native_answer = record {
  tg_id = 5;
  tests = answer (test_case 1) (test_passed false) ∷ answer (test_case 2) (test_passed false) ∷ [];
}

answers_natively : native_sig_ver lib ssl group ≡ ok native_answer
unfolding native_sig_ver node_name signature_gate map_all native_sig_ver_test native_verify
    public_key algid bytes parse_pairs hex_value bytes_equal
answers_natively = refl

answer_group-native_sig_ver_example :
    answer_group lib (λ name. some dsa) (sig_ver_test lib) group ≡ ok native_answer
answer_group-native_sig_ver_example =
    answer_group-native_sig_ver lib ssl (λ name. some dsa) dsa group native_answer refl
      (λ name h. alike name) answers_natively
