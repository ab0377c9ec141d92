-- ===== src/Acvts/OpenSsl/Laws.antt =====
-- The two responders give one answer.
use kxco_post_quantum.Prelude.{
  ◌≡◌, refl, sym, ap, ◌∙◌, Bool, true, false, [], ◌∷◌, List, Option, none, some, Text, Bytes, codes,
  Result, ok, >>=-eq-ok, ◌>>=◌,
}
use kxco_post_quantum.Jws.Segments.Laws.{some_required}
use kxco_post_quantum.Acvts.{TestCase, Group, SignatureAlgorithm, Library, is_member}
use kxco_post_quantum.Acvts.Respond.{
  RespondError, test_passed, GroupAnswer, map_all, signer_for, options_for, answer, is_true,
  sig_ver_test, answer_group,
}
use kxco_post_quantum.Acvts.OpenSsl.{
  OpenSsl, node_name, node_alg, refuse_if, signature_gate, native_verify, native_sig_ver_test,
  native_sig_ver,
}

not_refused : (b : Bool) (g : Group) (u : Unit {0}) → refuse_if b g ≡ ok u → b ≡ false
not_refused true g u h = cc
not_refused false g u h = refl

-- What the gate lets through.
signature_gate-open :
    (g : Group) (u : Unit {0})
    → signature_gate g ≡ ok u
    → (is_member g.signature_interface (codes "internal") ≡ false)
      × (g.external_mu ≡ false)
      × (is_member g.pre_hash (codes "preHash") ≡ false)
unfolding signature_gate
signature_gate-open g u h =
    let (a, r1, h1) =
      >>=-eq-ok (refuse_if (is_member g.signature_interface (codes "internal")) g) _ h in
    let (b, r2, h2) = >>=-eq-ok (refuse_if g.external_mu g) _ h1 in
    (not_refused _ g a r1, not_refused _ g b r2, not_refused _ g u h2)

map_all-same {ℓ κ} :
    {A : Type ℓ} {B : Type κ} (f h : A → Result RespondError B) (xs : List A)
    → ((x : A) → f x ≡ h x)
    → map_all f xs ≡ map_all h xs
unfolding map_all
map_all-same f h [] same = refl
map_all-same f h (x ∷ xs) same = rw (same x, map_all-same f h xs same) refl

-- OpenSSL and the JavaScript backend accept the same signatures of a parameter set, with a context or
-- without.
abbrev pub AcceptsAlike : Library → OpenSsl → Text → SignatureAlgorithm → Type 0
AcceptsAlike lib ssl name alg =
    (key message sig : Bytes) (context : Option Bytes)
    → is_true (native_verify lib ssl name key message sig context)
      ≡ is_true
          (alg.signer.verify sig message key (record { external_mu = none; context = context }))

module _ (lib : Library) (ssl : OpenSsl) (name : Text) (alg : SignatureAlgorithm) where
  same_test :
      (g : Group) (t : TestCase)
      → AcceptsAlike lib ssl name alg
      → is_member g.signature_interface (codes "internal") ≡ false
      → g.external_mu ≡ false
      → is_member g.pre_hash (codes "preHash") ≡ false
      → native_sig_ver_test lib ssl name t ≡ sig_ver_test lib alg g t
  unfolding native_sig_ver_test sig_ver_test signer_for options_for
  same_test g t alike internal mu pre_hash =
      rw (internal, mu, pre_hash) (ap (λ b. ok (answer t (test_passed b))) (alike _ _ _ _))

-- Where the responder over OpenSSL answers a group of signatures to verify, the responder of the
-- JavaScript backend gives the same answer to it. This is so for a parameter set that the JavaScript
-- backend has, where the two accept the same signatures.
pub answer_group-native_sig_ver :
    (lib : Library) (ssl : OpenSsl) (table : Text → Option SignatureAlgorithm)
    (alg : SignatureAlgorithm) (g : Group) (a : GroupAnswer)
    → table g.parameter_set ≡ some alg
    → ((name : Text) → node_name g.parameter_set ≡ some name → AcceptsAlike lib ssl name alg)
    → native_sig_ver lib ssl g ≡ ok a
    → answer_group lib table (sig_ver_test lib) g ≡ ok a
unfolding native_sig_ver answer_group
answer_group-native_sig_ver lib ssl table alg g a found alike h =
    let (name, r1, h1) = >>=-eq-ok (node_alg g) _ h in
    let (u, r2, h2) = >>=-eq-ok (signature_gate g) _ h1 in
    let (internal, mu, pre_hash) = signature_gate-open g u r2 in
    rw found (
      ap (λ r. r >>= λ answers. ok (record { tg_id = g.tg_id; tests = answers }))
        (sym (
          map_all-same (native_sig_ver_test lib ssl name) (sig_ver_test lib alg g) g.tests (λ t.
            same_test lib ssl name alg g t (alike name (some_required _ _ name r1)) internal mu
              pre_hash)))
      ∙ h2)
