-- ===== src/Codec/Base64/RoundTrip.antt =====
-- base64url without `Buffer`: the text is that of RFC 4648, and it is read back.
use kxco_post_quantum.Prelude.{
  ℕ, zero, suc, ◌-◌, ◌%◌, ◌≤◌, ◌≡◌, refl, ap, ◌∙◌, ◌≢◌, true, false, List, [], ◌∷◌, ◌++◌, map, some,
  arith, ◌==◌, length, length-append, length-replicate, replicate, all, All, Text, Bytes, IsByte,
  Bool-cases, inl, inr,
}
use kxco_post_quantum.Codec.Base64.{
  sextets, std_char, url_char, is_std, std_value, base64url, pad_count, btoa, remove_spaces, unpad,
  decode_unpadded, atob, replace, strip_padding, Runtime, BufferLaws, b64url, from_b64url,
}
use kxco_post_quantum.Codec.Base64.Laws.{
  IsSextet, sextets-IsSextet, octets-sextets, sextets_pad, length-sextets, replaced_char,
  restored_char, url_char-ne-eq, std_char-ne-eq, std_char-not_space, std_char-is_std,
  std_value-std_char,
}

pub length-map : (f : ℕ → ℕ) (xs : List ℕ) → length (map f xs) ≡ length xs
length-map f [] = refl
length-map f (x ∷ xs) = ap suc (length-map f xs)

padding_url : (k : ℕ) → replace b'/' b'_' (replace b'+' b'-' (replicate k b'=')) ≡ replicate k b'='
padding_url zero = refl
padding_url (suc k) = ap (λ r. b'=' ∷ r) (padding_url k)

to_url :
    (vs : List ℕ) (k : ℕ)
    → All IsSextet vs
    → replace b'/' b'_' (replace b'+' b'-' (map std_char vs ++ replicate k b'='))
      ≡ map url_char vs ++ replicate k b'='
to_url [] k h = padding_url k
to_url (v ∷ vs) k (hv, hvs) = cc (replaced_char v hv, to_url vs k hvs)

from_url :
    (vs : List ℕ)
    → All IsSextet vs
    → replace b'_' b'/' (replace b'-' b'+' (map url_char vs)) ≡ map std_char vs
from_url [] h = refl
from_url (v ∷ vs) (hv, hvs) = cc (restored_char v hv, from_url vs hvs)

all_padding : (k : ℕ) → all (λ d. d == b'=') (replicate k b'=') ≡ true
all_padding zero = refl
all_padding (suc k) = all_padding k

strip_padding_url :
    (vs : List ℕ) (k : ℕ)
    → All IsSextet vs
    → strip_padding (map url_char vs ++ replicate k b'=') ≡ map url_char vs
unfolding strip_padding
strip_padding_url [] zero h = refl
strip_padding_url [] (suc k) h = rw (all_padding k)
strip_padding_url (v ∷ vs) k (hv, hvs) =
    rw (url_char-ne-eq v hv) (ap (λ r. url_char v ∷ r) (strip_padding_url vs k hvs))

-- Without `Buffer` too, `b64url` writes RFC 4648 section 5 without padding.
pub b64url-base64url :
    (rt : Runtime) (bs : Bytes) → BufferLaws rt → All IsByte bs → b64url rt bs ≡ base64url bs
unfolding b64url btoa base64url
b64url-base64url rt bs laws h = elim (Bool-cases rt.has_buffer) [
  | inl has ↦ rw has (laws.writes bs h)
  | inr no_buffer ↦ rw no_buffer (
      ap strip_padding (to_url (sextets bs) (pad_count bs) (sextets-IsSextet bs h))
      ∙ strip_padding_url (sextets bs) (pad_count bs) (sextets-IsSextet bs h))
]

remove_spaces_padding : (k : ℕ) → remove_spaces (replicate k b'=') ≡ replicate k b'='
unfolding remove_spaces
remove_spaces_padding zero = refl
remove_spaces_padding (suc k) = ap (λ r. b'=' ∷ r) (remove_spaces_padding k)

remove_spaces_std :
    (vs : List ℕ) (k : ℕ)
    → All IsSextet vs
    → remove_spaces (map std_char vs ++ replicate k b'=') ≡ map std_char vs ++ replicate k b'='
unfolding remove_spaces
remove_spaces_std [] k h = remove_spaces_padding k
remove_spaces_std (v ∷ vs) k (hv, hvs) =
    rw (std_char-not_space v hv) (ap (λ r. std_char v ∷ r) (remove_spaces_std vs k hvs))

unpad_std :
    (vs : List ℕ) (k : ℕ)
    → k ≤ 2
    → All IsSextet vs
    → unpad (map std_char vs ++ replicate k b'=') ≡ map std_char vs
unfolding unpad
unpad_std [] zero le h = refl
unpad_std [] (suc zero) le h = refl
unpad_std [] (suc (suc zero)) le h = refl
unpad_std [] (suc (suc (suc k))) le h = absurd (omega arith)
unpad_std (v ∷ vs) k le (hv, hvs) =
    rw (std_char-ne-eq v hv) (ap (λ r. std_char v ∷ r) (unpad_std vs k le hvs))

all_std : (vs : List ℕ) → All IsSextet vs → all is_std (map std_char vs) ≡ true
all_std [] h = refl
all_std (v ∷ vs) (hv, hvs) = rw (std_char-is_std v hv) (all_std vs hvs)

std_values : (vs : List ℕ) → All IsSextet vs → map std_value (map std_char vs) ≡ vs
std_values [] h = refl
std_values (v ∷ vs) (hv, hvs) = cc (std_value-std_char v hv, std_values vs hvs)

ne→==_false : (n m : ℕ) → n ≢ m → (n == m) ≡ false
ne→==_false n m h = ground arith

groups_fit : (bs : Bytes) → (length (map std_char (sextets bs)) % 4 == 1) ≡ false
groups_fit bs =
    rw (length-map std_char (sextets bs))
      (ne→==_false (length (sextets bs) % 4) 1 (omega (arith, length-sextets bs)))

decode_std : (bs : Bytes) → All IsByte bs → decode_unpadded (map std_char (sextets bs)) ≡ some bs
unfolding decode_unpadded
decode_std bs h =
    rw
      (
        groups_fit bs,
        all_std (sextets bs) (sextets-IsSextet bs h),
        std_values (sextets bs) (sextets-IsSextet bs h),
        octets-sextets bs h,
      )
      refl

atob_step :
    (s t : Text) → remove_spaces s ≡ t → length t % 4 ≡ 0 → atob s ≡ decode_unpadded (unpad t)
unfolding atob
atob_step s t e h = rw (e, h)

length-btoa : (bs : Bytes) → length (btoa bs) % 4 ≡ 0
unfolding btoa
length-btoa bs = omega (
  arith,
  length-append (map std_char (sextets bs)) (replicate (pad_count bs) b'='),
  length-replicate {A = ℕ} (pad_count bs) b'=',
  length-map std_char (sextets bs),
  length-sextets bs,
)

atob-btoa : (bs : Bytes) → All IsByte bs → atob (btoa bs) ≡ some bs
atob-btoa bs h =
    atob_step (btoa bs) (btoa bs) (no_spaces bs h) (length-btoa bs)
    ∙ ap decode_unpadded (unpadded bs h)
    ∙ decode_std bs h
  where
    no_spaces : (b : Bytes) → All IsByte b → remove_spaces (btoa b) ≡ btoa b
    no_spaces b k =
        unfold btoa in remove_spaces_std (sextets b) (pad_count b) (sextets-IsSextet b k)

    unpadded : (b : Bytes) → All IsByte b → unpad (btoa b) ≡ map std_char (sextets b)
    unpadded b k =
        unfold btoa in unpad_std (sextets b) (pad_count b) (omega arith) (sextets-IsSextet b k)

-- The browser path puts back the padding that `btoa` wrote.
repadded :
    (bs : Bytes)
    → All IsByte bs
    → (let padded = replace b'_' b'/' (replace b'-' b'+' (base64url bs)) in
        padded ++ replicate ((4 - length padded % 4) % 4) b'=')
      ≡ btoa bs
unfolding base64url btoa
repadded bs h =
    rw
      (
        from_url (sextets bs) (sextets-IsSextet bs h),
        length-map std_char (sextets bs),
        sextets_pad bs,
      )
      refl

pub from_b64url_browser :
    (rt : Runtime) (bs : Bytes)
    → rt.has_buffer ≡ false
    → All IsByte bs
    → from_b64url rt (base64url bs) ≡ some bs
unfolding from_b64url
from_b64url_browser rt bs no_buffer h = rw (no_buffer, repadded bs h, atob-btoa bs h) refl

-- On every runtime, with or without `Buffer`, `fromB64url` reads what `b64url` wrote.
pub from_b64url-b64url :
    (rt : Runtime) (bs : Bytes)
    → BufferLaws rt
    → All IsByte bs
    → from_b64url rt (b64url rt bs) ≡ some bs
unfolding from_b64url
from_b64url-b64url rt bs laws h =
    rw (b64url-base64url rt bs laws h) (elim (Bool-cases rt.has_buffer) [
      | inl has ↦ rw (has, laws.reads bs h)
      | inr no_buffer ↦ from_b64url_browser rt bs no_buffer h
    ])
