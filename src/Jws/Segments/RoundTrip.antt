-- ===== src/Jws/Segments/RoundTrip.antt =====
-- The segments of a token that was put together are found again, and each is read strictly.
use kxco_post_quantum.Prelude.{
  ℕ, ◌<◌, ◌≡◌, refl, sym, ap, ◌∙◌, true, false, List, [], ◌∷◌, ◌++◌, map, some, arith, ◌==◌, all,
  All, Text, Bytes, IsByte, text_eq_iff, ok,
}
use kxco_post_quantum.Codec.Base64.{
  Runtime, BufferLaws, sextets, url_char, base64url, b64url, from_b64url,
}
use kxco_post_quantum.Codec.Base64.Laws.{IsSextet, sextets-IsSextet}
use kxco_post_quantum.Codec.Base64.RoundTrip.{b64url-base64url, from_b64url-b64url}
use kxco_post_quantum.Jws.Segments.{strict_b64url, is_empty, is_url_char, split_on, dot}

url_char-is_url_char : (v : ℕ) → v < 64 → is_url_char (url_char v) ≡ true
unfolding url_char
url_char-is_url_char v h = ground arith

all_url : (vs : List ℕ) → All IsSextet vs → all is_url_char (map url_char vs) ≡ true
all_url [] h = refl
all_url (v ∷ vs) (hv, hvs) = rw (url_char-is_url_char v hv) (all_url vs hvs)

abbrev pub IsNotDot : ℕ → Type 0
IsNotDot c = (c == dot) ≡ false

url_char-IsNotDot : (v : ℕ) → v < 64 → IsNotDot (url_char v)
unfolding url_char
url_char-IsNotDot v h = ground arith

no_dots : (vs : List ℕ) → All IsSextet vs → All IsNotDot (map url_char vs)
no_dots [] h = tt
no_dots (v ∷ vs) (hv, hvs) = (url_char-IsNotDot v hv, no_dots vs hvs)

some_text : (b : ℕ) (bs : Bytes) → is_empty (base64url (b ∷ bs)) ≡ false
unfolding base64url sextets
some_text b [] = refl
some_text b (c ∷ []) = refl
some_text b (c ∷ d ∷ bs) = refl

module _ (rt : Runtime) (laws : BufferLaws rt) where
  pub b64url-IsNotDot : (bs : Bytes) → All IsByte bs → All IsNotDot (b64url rt bs)
  unfolding base64url
  b64url-IsNotDot bs h =
      rw (b64url-base64url rt bs laws h) (no_dots (sextets bs) (sextets-IsSextet bs h))

  all_url_chars : (bs : Bytes) → All IsByte bs → all is_url_char (base64url bs) ≡ true
  unfolding base64url
  all_url_chars bs h = all_url (sextets bs) (sextets-IsSextet bs h)

  -- What `b64url` writes for some bytes is read strictly, on every runtime.
  pub strict_b64url_of :
      (b : ℕ) (bs : Bytes)
      → All IsByte (b ∷ bs)
      → strict_b64url rt (b64url rt (b ∷ bs)) ≡ ok (b ∷ bs)
  strict_b64url_of b bs h =
      unfold strict_b64url in
      rw
        (
          b64url-base64url rt (b ∷ bs) laws h,
          some_text b bs,
          all_url_chars (b ∷ bs) h,
          read,
          b64url-base64url rt (b ∷ bs) laws h,
          (text_eq_iff (base64url (b ∷ bs)) (base64url (b ∷ bs))).1 refl,
        )
        refl
    where
      read : from_b64url rt (base64url (b ∷ bs)) ≡ some (b ∷ bs)
      read =
          ap (from_b64url rt) (sym (b64url-base64url rt (b ∷ bs) laws h))
          ∙ from_b64url-b64url rt (b ∷ bs) laws h

split_on_part : (p t : Text) → All IsNotDot p → split_on dot (p ++ dot ∷ t) ≡ p ∷ split_on dot t
unfolding split_on
split_on_part [] t h = refl
split_on_part (c ∷ p) t (hc, hp) = rw (hc, split_on_part p t hp) refl

split_on_last : (p : Text) → All IsNotDot p → split_on dot p ≡ p ∷ []
unfolding split_on
split_on_last [] h = refl
split_on_last (c ∷ p) (hc, hp) = rw (hc, split_on_last p hp) refl

-- A token of three segments without dots is split into them.
pub split_on_token :
    (p q s : Text)
    → All IsNotDot p
    → All IsNotDot q
    → All IsNotDot s
    → split_on dot (p ++ dot ∷ (q ++ dot ∷ s)) ≡ p ∷ q ∷ s ∷ []
split_on_token p q s hp hq hs =
    split_on_part p _ hp
    ∙ ap (λ r. p ∷ r) (split_on_part q s hq ∙ ap (λ r. q ∷ r) (split_on_last s hs))
