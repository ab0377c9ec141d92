-- ===== src/Jws/Segments/Laws.antt =====
-- Splitting a token loses nothing, and a segment that is read strictly is written one way only.
use kxco_post_quantum.Prelude.{
  ℕ, ◌≡◌, refl, sym, ap, ◌∙◌, not, ◌&&◌, Bool-cases, inl, inr, List, [], ◌∷◌, ◌++◌, Option, none,
  some, ◌==◌, ==_iff, all, Text, Bytes, text_eq, text_eq_iff, ok, require, require_some, required,
  ok-injective, >>=-eq-ok,
}
use kxco_post_quantum.Codec.Base64.{Runtime, b64url, from_b64url}
use kxco_post_quantum.Jws.Segments.{
  strict_b64url, not_base64url, not_canonical, undecodable, is_empty, is_url_char, cons_first,
  split_on, Parts, three_parts,
}

abbrev pub join : ℕ → List Text → Text
join c [] = []
join c (p ∷ []) = p
join c (p ∷ q ∷ ps) = p ++ c ∷ join c (q ∷ ps)

join-cons_first : (c d : ℕ) (ps : List Text) → join c (cons_first d ps) ≡ d ∷ join c ps
join-cons_first c d [] = refl
join-cons_first c d (p ∷ []) = refl
join-cons_first c d (p ∷ q ∷ ps) = refl

abbrev IsSplit : List Text → Type 0
IsSplit [] = ⊥
IsSplit (p ∷ ps) = Unit {0}

split_on-IsSplit : (c : ℕ) (s : Text) → IsSplit (split_on c s)
unfolding split_on
split_on-IsSplit c [] = tt
split_on-IsSplit c (d ∷ s) = elim (Bool-cases (d == c)) [
  | inl e ↦ rw e tt
  | inr e ↦ rw e (grown (split_on c s))
]
  where
    grown : (ps : List Text) → IsSplit (cons_first d ps)
    grown [] = tt
    grown (p ∷ ps) = tt

join-empty : (c : ℕ) (ps : List Text) → IsSplit ps → join c ([] ∷ ps) ≡ c ∷ join c ps
join-empty c (p ∷ ps) h = refl
join-empty c [] h = absurd h

pub join-split_on : (c : ℕ) (s : Text) → join c (split_on c s) ≡ s
unfolding split_on
join-split_on c [] = refl
join-split_on c (d ∷ s) =
    let ih = join-split_on c s in
    elim (Bool-cases (d == c)) [
      | inl e ↦
          rw e (join-empty c (split_on c s) (split_on-IsSplit c s) ∙ rw (ih, (==_iff d c).0 e) refl)
      | inr e ↦ rw e (join-cons_first c d (split_on c s) ∙ ap (λ t. d ∷ t) ih)
    ]

three_parts-join :
    (c : ℕ) (ps : List Text) (parts : Parts)
    → three_parts ps ≡ some parts
    → join c ps ≡ parts.protected ++ c ∷ (parts.payload ++ c ∷ parts.signature)
three_parts-join c [] parts h = cc
three_parts-join c (a ∷ []) parts h = cc
three_parts-join c (a ∷ b ∷ []) parts h = cc
three_parts-join c (a ∷ b ∷ d ∷ []) parts h = cc
three_parts-join c (a ∷ b ∷ d ∷ e ∷ ps) parts h = cc

pub split_on-three :
    (c : ℕ) (s : Text) (parts : Parts)
    → three_parts (split_on c s) ≡ some parts
    → s ≡ parts.protected ++ c ∷ (parts.payload ++ c ∷ parts.signature)
split_on-three c s parts h = sym (join-split_on c s) ∙ three_parts-join c (split_on c s) parts h

pub some_required {ℓ} :
    {A : Type ℓ} {E : Type 0} (o : Option A) (e : E) (a : A) → require_some o e ≡ ok a → o ≡ some a
some_required none e a h = cc
some_required (some b) e a h = cc

-- A segment that is read strictly is the base64url of the bytes that are read.
pub strict_b64url-b64url :
    (rt : Runtime) (str : Text) (bytes : Bytes)
    → strict_b64url rt str ≡ ok bytes
    → (str ≡ b64url rt bytes) × (from_b64url rt str ≡ some bytes)
unfolding strict_b64url
strict_b64url-b64url rt str bytes h =
    let (_, _, h1) =
      >>=-eq-ok (require (not (is_empty str) && all is_url_char str) not_base64url) _ h in
    let (read, decoded, h2) = >>=-eq-ok (require_some (from_b64url rt str) undecodable) _ h1 in
    let (_, same, h3) = >>=-eq-ok (require (text_eq (b64url rt read) str) not_canonical) _ h2 in
    let written = (text_eq_iff (b64url rt read) str).0 (required _ _ same) in
    let done = ok-injective h3 in
    (sym written ∙ ap (b64url rt) done, some_required _ _ read decoded ∙ ap some done)
