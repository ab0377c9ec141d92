-- ===== src/Acvts/Signed.antt =====
-- What the responder signs, it verifies.
use kxco_post_quantum.Prelude.{
  ◌≡◌, refl, sym, ap, Bool, true, Option, some, if◌then◌else◌, All, IsByte, Text, Bytes, codes,
  text_eq, ok, ok-injective, >>=-eq-ok,
}
use kxco_post_quantum.Jws.Segments.Laws.{some_required}
use kxco_post_quantum.Acvts.{TestCase, Group, SignerOptions, Signer, SignatureAlgorithm, Library}
use kxco_post_quantum.Acvts.Respond.{
  backend_threw, signature, test_passed, Answer, hex, bytes, signer_for, options_for, message_of,
  randomness, or_threw, answer, is_true, sig_gen_test, sig_ver_test,
}

-- The verification of an answer: the test with the signature and the public key.
abbrev pub verifying : (public_key sig : Text) → TestCase → TestCase
verifying public_key sig t = record {
  tc_id = t.tc_id;
  hex_of = λ name.
      if text_eq name (codes "signature")
      then some sig
      else if text_eq name (codes "pk")
      then some public_key
      else t.hex_of name;
  hash_alg = t.hash_alg;
}

-- A signer whose signatures verify under the public key, whatever the options, and are bytes.
pub record IsSound (s : Signer) (secret_key public_key : Bytes) : Type 0 where
  pub accepts :
      (message sig : Bytes) (opts : SignerOptions) (rnd : Option Bytes)
      → s.sign message secret_key opts rnd ≡ some sig
      → s.verify sig message public_key opts ≡ some true
  pub signs_bytes :
      (message sig : Bytes) (opts : SignerOptions) (rnd : Option Bytes)
      → s.sign message secret_key opts rnd ≡ some sig
      → All IsByte sig

same_signer :
    (alg : SignatureAlgorithm) (g : Group) (t : TestCase) (public_key sig : Text)
    → signer_for alg g (verifying public_key sig t) ≡ signer_for alg g t
unfolding signer_for
same_signer alg g t public_key sig = refl

-- Where the responder has signed a test, it passes the test that verifies this signature under the
-- public key, with the same message, context and options, in every group and with every hash. This is so
-- where the signer that the group chooses is sound for the key pair, and `Buffer` reads the upper-case
-- hex of bytes.
pub sig_ver_test-sig_gen_test :
    (lib : Library) (rnd_field : Text) (alg : SignatureAlgorithm) (g : Group) (t : TestCase)
    (public_key : Bytes) (a : Answer)
    → ((bs : Bytes) → All IsByte bs → lib.from_hex (hex bs) ≡ bs)
    → All IsByte public_key
    → ((s : Signer) (mu : Option Bool)
        → signer_for alg g t ≡ ok (s, mu)
        → IsSound s (bytes lib t (codes "sk")) public_key)
    → sig_gen_test lib rnd_field alg g t ≡ ok a
    → (sig : Text) × (a ≡ answer t (signature sig))
      × (sig_ver_test lib alg g (verifying (hex public_key) sig t)
          ≡ ok (answer t (test_passed true)))
unfolding sig_gen_test sig_ver_test
sig_ver_test-sig_gen_test lib rnd_field alg g t public_key a reads hk sound h =
    let ((s, mu), r1, h1) = >>=-eq-ok (signer_for alg g t) _ h in
    let made =
      s.sign (message_of lib g t) (bytes lib t (codes "sk")) (options_for lib g t mu)
        (randomness lib g t rnd_field g.deterministic) in
    let (sig, r2, h2) = >>=-eq-ok (or_threw g made) _ h1 in
    let good = sound s mu r1 in
    let signed = some_required made (backend_threw g.tg_id) sig r2 in
    (
      hex sig,
      sym (ok-injective h2),
      rw (same_signer alg g t (hex public_key) (hex sig), r1)
          (ap (λ v. ok (answer t (test_passed (is_true v)))) (checked s mu sig signed good)),
    )
  where
    checked :
        (s : Signer) (mu : Option Bool) (sig : Bytes)
        → s.sign
            (message_of lib g t)
            (bytes lib t (codes "sk"))
            (options_for lib g t mu)
            (randomness lib g t rnd_field g.deterministic)
          ≡ some sig
        → IsSound s (bytes lib t (codes "sk")) public_key
        → let t' = verifying (hex public_key) (hex sig) t in
          s.verify
            (bytes lib t' (codes "signature"))
            (message_of lib g t')
            (bytes lib t' (codes "pk"))
            (options_for lib g t' mu)
          ≡ some true
    checked s mu sig signed good =
        let hs = good.signs_bytes _ sig _ _ signed in
        let good_so = good.accepts _ sig _ _ signed in
        unfold bytes options_for in rw (reads sig hs, reads public_key hk) good_so
