-- ===== src/Acvts/Laws.antt =====
-- Nothing that the server asks is dropped.
use kxco_post_quantum.Prelude.{
  ℕ, ◌≡◌, refl, sym, ap, ◌∙◌, Bool, true, false, [], ◌∷◌, List, Option, none, some, if◌then◌else◌,
  map, Text, Result, ok, err, require_some, ok-injective, codes, text_eq, ◌++◌, >>=-eq-ok, ◌>>=◌,
}
use mathlib.Core.Path.{subst}
use kxco_post_quantum.Acvts.{
  TestCase, Group, Prompt, KemAlgorithm, SignatureAlgorithm, Library, is_member,
}
use kxco_post_quantum.Acvts.Respond.{
  RespondError, no_responder, Body, Answer, GroupAnswer, Response, map_all, backend, signer_for,
  answer, sig_gen_test, sig_ver_test, kem_keygen_test, dsa_keygen_test, slh_keygen_test, kem_test,
  answer_group, responder, respond,
}

-- What a group asks, and what an answer to it answers: the group and its tests, in order.
abbrev pub asked : Group → ℕ × List ℕ
asked g = (g.tg_id, map (λ (t : TestCase). t.tc_id) g.tests)

abbrev pub answered : GroupAnswer → ℕ × List ℕ
answered a = (a.tg_id, map (λ (b : Answer). b.tc_id) a.tests)

-- The answer is one to this test.
abbrev Names : TestCase → Result RespondError Answer → Type 0
Names t (ok a) = a.tc_id ≡ t.tc_id
Names t (err e) = Unit {0}

map_all-map {ℓ κ} :
    {A : Type ℓ} {B : Type κ} {C : Type 0} (f : A → Result RespondError B) (p : A → C) (q : B → C)
    (xs : List A) (ys : List B)
    → ((x : A) (y : B) → f x ≡ ok y → q y ≡ p x)
    → map_all f xs ≡ ok ys
    → map q ys ≡ map p xs
unfolding map_all
map_all-map f p q [] ys same h = ap (map q) (sym (ok-injective h))
map_all-map f p q (x ∷ xs) ys same h =
    let (y, r1, h1) = >>=-eq-ok (f x) _ h in
    let (zs, r2, h2) = >>=-eq-ok (map_all f xs) _ h1 in
    ap (map q) (sym (ok-injective h2))
    ∙ ap (λ c. c ∷ map q zs) (same x y r1)
    ∙ ap (λ cs. p x ∷ cs) (map_all-map f p q xs zs same r2)

then_answer {ℓ} :
    {A : Type ℓ} (t : TestCase) (r : Result RespondError A) (body : A → Body)
    → Names t (r >>= λ a. ok (answer t (body a)))
then_answer t (ok a) body = refl
then_answer t (err e) body = tt

chained {ℓ} :
    {A : Type ℓ} (t : TestCase) (r : Result RespondError A) (next : A → Result RespondError Answer)
    → ((a : A) → Names t (next a))
    → Names t (r >>= next)
chained t (ok a) next h = h a
chained t (err e) next h = tt

either :
    (t : TestCase) (b : Bool) (x y : Result RespondError Answer)
    → Names t x
    → Names t y
    → Names t (if b then x else y)
either t true x y hx hy = hx
either t false x y hx hy = hy

module _ (lib : Library) where
  sig_gen-Names :
      (rnd_field : Text) (alg : SignatureAlgorithm) (g : Group) (t : TestCase)
      → Names t (sig_gen_test lib rnd_field alg g t)
  unfolding sig_gen_test
  sig_gen-Names rnd_field alg g t = chained t (signer_for alg g t) _ (λ p. then_answer t _ _)

  sig_ver-Names :
      (alg : SignatureAlgorithm) (g : Group) (t : TestCase) → Names t (sig_ver_test lib alg g t)
  unfolding sig_ver_test
  sig_ver-Names alg g t = then_answer t (signer_for alg g t) _

  kem_keygen-Names :
      (alg : KemAlgorithm) (g : Group) (t : TestCase) → Names t (kem_keygen_test lib alg g t)
  unfolding kem_keygen_test
  kem_keygen-Names alg g t = then_answer t _ _

  dsa_keygen-Names :
      (alg : SignatureAlgorithm) (g : Group) (t : TestCase) → Names t (dsa_keygen_test lib alg g t)
  unfolding dsa_keygen_test
  dsa_keygen-Names alg g t = then_answer t _ _

  slh_keygen-Names :
      (alg : SignatureAlgorithm) (g : Group) (t : TestCase) → Names t (slh_keygen_test lib alg g t)
  unfolding slh_keygen_test
  slh_keygen-Names alg g t = then_answer t _ _

  kem-Names : (alg : KemAlgorithm) (g : Group) (t : TestCase) → Names t (kem_test lib alg g t)
  unfolding kem_test
  kem-Names alg g t = either t (is_member g.kind (codes "encapsulation")) _ _ (then_answer t _ _) (
      either t (is_member g.kind (codes "decapsulation")) _ _ (then_answer t _ _) (
        either t (is_member g.kind (codes "encapsulationKeyCheck")) _ _ refl
          (either t (is_member g.kind (codes "decapsulationKeyCheck")) _ _ refl tt)))

  group_answered {ℓ} :
      {A : Type ℓ} (table : Text → Option A)
      (test : A → Group → TestCase → Result RespondError Answer) (g : Group) (a : GroupAnswer)
      → ((alg : A) (t : TestCase) → Names t (test alg g t))
      → answer_group lib table test g ≡ ok a
      → answered a ≡ asked g
  unfolding answer_group
  group_answered table test g a names h =
      let (alg, r1, h1) = >>=-eq-ok (backend table g) _ h in
      let (answers, r2, h2) = >>=-eq-ok (map_all (test alg g) g.tests) _ h1 in
      ap answered (sym (ok-injective h2))
      ∙ ap (λ ids. (g.tg_id, ids))
          (map_all-map (test alg g) (λ (t : TestCase). t.tc_id) (λ (b : Answer). b.tc_id) g.tests
            answers (λ t b e. subst (Names t) e (names alg t)) r2)

abbrev IsFaithful : Option (Group → Result RespondError GroupAnswer) → Type 0
IsFaithful none = Unit {0}
IsFaithful (some f) = (g : Group) (a : GroupAnswer) → f g ≡ ok a → answered a ≡ asked g

pick :
    (b : Bool) (x y : Option (Group → Result RespondError GroupAnswer))
    → IsFaithful x
    → IsFaithful y
    → IsFaithful (if b then x else y)
pick true x y hx hy = hx
pick false x y hx hy = hy

responder-IsFaithful :
    (lib : Library) (algorithm mode : Text) → IsFaithful (responder lib algorithm mode)
unfolding responder
responder-IsFaithful lib algorithm mode =
    pick (text_eq (algorithm ++ b'/' ∷ mode) (codes "ML-KEM/keyGen")) _ _
      (λ g a. group_answered lib _ _ g a (λ alg t. kem_keygen-Names lib alg g t))
      (pick (text_eq (algorithm ++ b'/' ∷ mode) (codes "ML-KEM/encapDecap")) _ _
        (λ g a. group_answered lib _ _ g a (λ alg t. kem-Names lib alg g t))
        (pick (text_eq (algorithm ++ b'/' ∷ mode) (codes "ML-DSA/keyGen")) _ _
          (λ g a. group_answered lib _ _ g a (λ alg t. dsa_keygen-Names lib alg g t))
          (pick (text_eq (algorithm ++ b'/' ∷ mode) (codes "ML-DSA/sigGen")) _ _
            (λ g a. group_answered lib _ _ g a (λ alg t. sig_gen-Names lib _ alg g t))
            (pick (text_eq (algorithm ++ b'/' ∷ mode) (codes "ML-DSA/sigVer")) _ _
              (λ g a. group_answered lib _ _ g a (λ alg t. sig_ver-Names lib alg g t))
              (pick (text_eq (algorithm ++ b'/' ∷ mode) (codes "SLH-DSA/keyGen")) _ _
                (λ g a. group_answered lib _ _ g a (λ alg t. slh_keygen-Names lib alg g t))
                (pick (text_eq (algorithm ++ b'/' ∷ mode) (codes "SLH-DSA/sigGen")) _ _
                  (λ g a. group_answered lib _ _ g a (λ alg t. sig_gen-Names lib _ alg g t))
                  (pick (text_eq (algorithm ++ b'/' ∷ mode) (codes "SLH-DSA/sigVer")) _ _
                    (λ g a. group_answered lib _ _ g a (λ alg t. sig_ver-Names lib alg g t))
                    tt)))))))

all_answered :
    (o : Option (Group → Result RespondError GroupAnswer))
    (f : Group → Result RespondError GroupAnswer) (gs : List Group) (answers : List GroupAnswer)
    (e : RespondError)
    → IsFaithful o
    → require_some o e ≡ ok f
    → map_all f gs ≡ ok answers
    → map answered answers ≡ map asked gs
all_answered none f gs answers e h r m = cc
all_answered (some k) f gs answers e h r m =
    map_all-map k asked answered gs answers h
      (subst (λ x. map_all x gs ≡ ok answers) (sym (ok-injective r)) m)

-- Where `respond` returns, it has answered every group of the prompt and every test of each group, under
-- their own numbers and in their order, whatever the algorithm, the mode and the backend.
pub respond-answers :
    (lib : Library) (p : Prompt) (r : Response)
    → respond lib p ≡ ok r
    → map answered r.groups ≡ map asked p.groups
unfolding respond
respond-answers lib p r h =
    let (f, r1, h1) =
      >>=-eq-ok (require_some (responder lib p.algorithm p.mode) (no_responder p.algorithm p.mode))
        _ h in
    let (groups, r2, h2) = >>=-eq-ok (map_all f p.groups) _ h1 in
    ap (λ (x : Response). map answered x.groups) (sym (ok-injective h2))
    ∙ all_answered (responder lib p.algorithm p.mode) f p.groups groups _
        (responder-IsFaithful lib p.algorithm p.mode) r1 r2
