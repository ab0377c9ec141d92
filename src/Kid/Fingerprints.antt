-- ===== src/Kid/Fingerprints.antt =====
-- What two key identifiers of src/kid.js say of the two keys.
use kxco_post_quantum.Prelude.{
  ℕ, zero, suc, ◌*◌, ◌≡◌, refl, sym, ap, ◌∙◌, ◌↔◌, true, [], ◌∷◌, arith, take, All, All-take, Text,
  Bytes, IsByte, ok, ok-injective,
}
use kxco_post_quantum.Value.{text}
use kxco_post_quantum.Codec.Hex.{bytes_to_hex, hex_to_bytes}
use kxco_post_quantum.Codec.Hex.Laws.{bytes_to_hex-cons, hex_to_bytes-bytes_to_hex}
use kxco_post_quantum.Codec.Equal.{bytes_equal_iff}
use kxco_post_quantum.Kid.{KeyInput, key_bytes, fingerprint, kid_equals}

take-empty : (n : ℕ) → take {A = ℕ} n [] ≡ []
take-empty zero = refl
take-empty (suc n) = refl

take-bytes_to_hex :
    (n : ℕ) (bs : Bytes) → All IsByte bs → take (2 * n) (bytes_to_hex bs) ≡ bytes_to_hex (take n bs)
take-bytes_to_hex zero bs h = unfold bytes_to_hex in refl
take-bytes_to_hex (suc n) [] h = unfold bytes_to_hex in take-empty (2 * suc n)
take-bytes_to_hex (suc n) (b ∷ bs) (h, hs) =
    rw
      (
        bytes_to_hex-cons b bs h,
        bytes_to_hex-cons b (take n bs) h,
        twice,
        take-bytes_to_hex n bs hs,
      )
      refl
  where
    twice : 2 * suc n ≡ suc (suc (2 * n))
    twice = omega arith

bytes_to_hex-injective :
    (a b : Bytes) → All IsByte a → All IsByte b → bytes_to_hex a ≡ bytes_to_hex b → a ≡ b
bytes_to_hex-injective a b ha hb e =
    ok-injective
      (sym (hex_to_bytes-bytes_to_hex a ha) ∙ ap hex_to_bytes e ∙ hex_to_bytes-bytes_to_hex b hb)

module _ (sha256 : Bytes → Bytes) (digests : (m : Bytes) → All IsByte (sha256 m)) where
  kid_of : Bytes → Text
  kid_of x = take 16 (bytes_to_hex (sha256 x))

  kid_of-prefix : (x : Bytes) → kid_of x ≡ bytes_to_hex (take 8 (sha256 x))
  unfolding kid_of
  kid_of-prefix x = take-bytes_to_hex 8 (sha256 x) (digests x)

  same_prefix : (x y : Bytes) → kid_of x ≡ kid_of y → take 8 (sha256 x) ≡ take 8 (sha256 y)
  same_prefix x y e =
      bytes_to_hex-injective _ _ (All-take IsByte 8 (sha256 x) (digests x))
        (All-take IsByte 8 (sha256 y) (digests y)) (sym (kid_of-prefix x) ∙ e ∙ kid_of-prefix y)

  fingerprint-kid_of :
      (a : KeyInput) (x : Bytes) → key_bytes a ≡ ok x → fingerprint sha256 a ≡ ok (kid_of x)
  unfolding fingerprint kid_of
  fingerprint-kid_of a x h = rw h refl

  -- Two public keys, each given as hex, as bytes or as an array, have fingerprints, and `kidEquals` holds
  -- of them exactly where the first 8 bytes of the digests of the keys' bytes are equal, whatever the
  -- forms of the two keys. The digest is of bytes.
  pub kid_equals-fingerprint :
      (a b : KeyInput) (x y : Bytes)
      → key_bytes a ≡ ok x
      → key_bytes b ≡ ok y
      → (k : Text) × (l : Text) × (fingerprint sha256 a ≡ ok k)
        × (fingerprint sha256 b ≡ ok l)
        × ((kid_equals (text k) (text l) ≡ true) ↔ (take 8 (sha256 x) ≡ take 8 (sha256 y)))
  unfolding kid_equals
  kid_equals-fingerprint a b x y ha hb = (
    kid_of x,
    kid_of y,
    fingerprint-kid_of a x ha,
    fingerprint-kid_of b y hb,
    (
      λ h. same_prefix x y ((bytes_equal_iff (kid_of x) (kid_of y)).0 h),
      λ e.
          (bytes_equal_iff (kid_of x) (kid_of y)).1
            (kid_of-prefix x ∙ ap bytes_to_hex e ∙ sym (kid_of-prefix y)),
    ),
  )
