-- ===== src/Release/SignedBy.antt =====
-- The key that scripts/sign-release.mjs signs a release with, where it ends well.
use kxco_post_quantum.Prelude.{
  ℕ, zero, suc, ◌*◌, ◌≡◌, ◌≢◌, ◌⊎◌, refl, ap, Bool, true, false, ◌&&◌, Bool-cases, inl, inr, List,
  [], ◌∷◌, none, some, ==_iff, arith, length, Text, Bytes, codes, ok,
}
use kxco_post_quantum.Value.{Value, u8, text, undefined}
use kxco_post_quantum.Codec.Hex.{bytes_to_hex, hex_to_bytes, parse_pairs}
use kxco_post_quantum.Codec.Trim.{trim}
use kxco_post_quantum.Codec.Utf8.Decode.{decode_from}
use kxco_post_quantum.Seed.Keys.{SeededKey}
use kxco_post_quantum.Release.Disk.{Disk}
use kxco_post_quantum.Release.Sign.{
  signed_all, Signer, Signers, trimmed, not_empty, is_seed_hex, sign_with, release_label,
  sign_release,
}
use kxco_post_quantum.Release.Signed.{Signing, stopped, sign_with-Signing, chosen}

length-parse_pairs : (n : ℕ) (s : Text) → length s ≡ 2 * n → length (parse_pairs s) ≡ n
unfolding parse_pairs
length-parse_pairs zero [] h = refl
length-parse_pairs zero (c ∷ s) h = absurd (omega arith)
length-parse_pairs (suc n) [] h = absurd (omega arith)
length-parse_pairs (suc n) (c ∷ []) h = absurd (omega arith)
length-parse_pairs (suc n) (c ∷ e ∷ s) h = ap suc (length-parse_pairs n s (omega arith))

both : (a b : Bool) → (a && b) ≡ true → (a ≡ true) × (b ≡ true)
both a b h = ground arith

-- A seed that passes the test is the hex of 32 bytes.
seed_master :
    (seed : Text)
    → is_seed_hex seed ≡ true
    → (hex_to_bytes seed ≡ ok (parse_pairs seed)) × (length (parse_pairs seed) ≡ 32)
unfolding hex_to_bytes
seed_master seed h =
    let (sized, digits) = both _ _ h in
    let size = (==_iff (length seed) 64).0 sized in
    (rw (size, digits) refl, length-parse_pairs 32 seed size)

-- The release is signed by this signer with the key pair of this seed and label: the seed, without the
-- space around it, is the hex of a master of 32 bytes; the key pair is derived from the master with the
-- label; its public key is the published one; and the files are signed with it.
abbrev pub SignedBy {ℓ} :
    {D : Type ℓ} → Disk D → Signer → (seed : Text) (label : Value) → List Text → D → D → Type ℓ
SignedBy disk s seed label files d d' =
    (master : Bytes) × (kp : SeededKey) × (expected : Bytes) × (hex_to_bytes seed ≡ ok master)
    × (length master ≡ 32)
    × (s.keypair (u8 master) label ≡ ok kp)
    × (s.published ≡ some expected)
    × (bytes_to_hex kp.public_key ≡ trim (decode_from none expected))
    × Signing disk s.setup kp.public_key files d d'

sign_with-SignedBy {ℓ} :
    {D : Type ℓ} (disk : Disk D) (s : Signer) (seed : Text) (label : Value) (files : List Text)
    (d d' : D)
    → is_seed_hex seed ≡ true
    → sign_with disk s (s.keypair (u8 (parse_pairs seed)) label) files d ≡ (d', signed_all)
    → SignedBy disk s seed label files d d'
sign_with-SignedBy disk s seed label files d d' hex h =
    let (read, size) = seed_master seed hex in
    let (kp, expected, derived, published, same, signing) =
      sign_with-Signing disk s (s.keypair (u8 (parse_pairs seed)) label) files d d' h in
    (parse_pairs seed, kp, expected, read, size, derived, published, same, signing)

-- Where the script ends with every file signed, one of two things is so. There is a seed for ML-DSA-87,
-- and the release is signed with ML-DSA-87 and the key pair of that seed under the label
-- 'kxco-release-signing-87-v1'; or there is none but white space, and it is signed with ML-DSA-65 and
-- the key pair of the other seed under no label. The seed is the hex of 32 bytes, the public key is, in
-- hex, the one published for the set, and one file after the other was read, and beside it a signature
-- written that the module accepts for what was read under that key.
pub sign_release-SignedBy {ℓ} :
    {D : Type ℓ} (disk : Disk D) (s : Signers) (files : List Text) (d d' : D)
    → sign_release disk s files d ≡ (d', signed_all)
    → ((trimmed s.seed_87 ≢ [])
        × SignedBy disk s.with_87
            (trimmed s.seed_87)
            (text (codes "kxco-release-signing-87-v1"))
            files
            d
            d')
      ⊎ ((trimmed s.seed_87 ≡ [])
          × SignedBy disk s.with_65 (trimmed s.seed_65) undefined files d d')
unfolding sign_release
sign_release-SignedBy disk s [] d d' h = absurd (stopped disk h (λ p. cc))
sign_release-SignedBy disk s (f ∷ fs) d d' h = elim (Bool-cases (not_empty (trimmed s.seed_87))) [
  | inl u ↦ elim (Bool-cases (is_seed_hex (trimmed s.seed_87))) [
    | inr bad ↦ absurd (stopped disk (rw (u, bad) at h) (λ p. cc))
    | inl hex ↦ inl (
      some_text (trimmed s.seed_87) u,
      sign_with-SignedBy disk s.with_87 (trimmed s.seed_87) release_label (f ∷ fs) d d' hex
          (rw (u, hex) at h),
    )
  ]
  | inr u ↦ elim (Bool-cases (is_seed_hex (trimmed s.seed_65))) [
    | inr bad ↦ absurd (stopped disk (rw (u, bad) at h) (λ p. cc))
    | inl hex ↦ inr (
      no_text (trimmed s.seed_87) u,
      sign_with-SignedBy disk s.with_65 (trimmed s.seed_65) undefined (f ∷ fs) d d' hex
          (rw (u, hex) at h),
    )
  ]
]
  where
    some_text : (t : Text) → not_empty t ≡ true → t ≢ []
    some_text [] e = cc
    some_text (c ∷ t) e = λ p. cc

    no_text : (t : Text) → not_empty t ≡ false → t ≡ []
    no_text [] e = refl
    no_text (c ∷ t) e = cc

empty_text : (t : Text) → t ≡ [] → not_empty t ≡ false
empty_text [] e = refl
empty_text (c ∷ t) e = cc

full_text : (t : Text) → t ≢ [] → not_empty t ≡ true
full_text [] e = absurd (e refl)
full_text (c ∷ t) e = refl

-- The same, without the seed.
abbrev pub Signed {ℓ} : {D : Type ℓ} → Disk D → Signer → List Text → D → D → Type ℓ
Signed disk s files d d' =
    (master : Value) × (label : Value) × (kp : SeededKey) × (expected : Bytes) × (s.keypair master
        label
      ≡ ok kp)
    × (s.published ≡ some expected)
    × (bytes_to_hex kp.public_key ≡ trim (decode_from none expected))
    × Signing disk s.setup kp.public_key files d d'

signed_by {ℓ} :
    {D : Type ℓ} (disk : Disk D) (s : Signer) (seed : Text) (label : Value) (files : List Text)
    (d d' : D)
    → SignedBy disk s seed label files d d'
    → Signed disk s files d d'
signed_by disk s seed label files d d'
      (master, kp, expected, read, size, derived, published, same, signing) =
    (u8 master, label, kp, expected, derived, published, same, signing)

pub sign_release-chosen {ℓ} :
    {D : Type ℓ} (disk : Disk D) (s : Signers) (files : List Text) (d d' : D)
    → sign_release disk s files d ≡ (d', signed_all)
    → Signed disk (chosen s) files d d'
sign_release-chosen disk s files d d' h = elim (sign_release-SignedBy disk s files d d' h) [
  | inl (n, signing) ↦
      rw (full_text (trimmed s.seed_87) n)
        (signed_by disk s.with_87 _ release_label files d d' signing)
  | inr (n, signing) ↦
      rw (empty_text (trimmed s.seed_87) n)
        (signed_by disk s.with_65 _ undefined files d d' signing)
]
