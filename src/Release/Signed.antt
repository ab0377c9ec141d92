-- ===== src/Release/Signed.antt =====
-- What scripts/sign-release.mjs has done where it ends well.
use kxco_post_quantum.Prelude.{
  ◌≡◌, ◌≢◌, refl, sym, ap, Bool, true, Bool-cases, Option-cases, Result-cases, inl, inr, List, [],
  ◌∷◌, Option, none, some, if◌then◌else◌, Text, Bytes, text_eq, text_eq_iff, Result, ok, err,
}
use mathlib.Core.Path.{subst}
use kxco_post_quantum.Value.{Value, u8, text}
use kxco_post_quantum.Codec.Hex.{HexError, bytes_to_hex, hex_to_bytes}
use kxco_post_quantum.Codec.Trim.{trim}
use kxco_post_quantum.Codec.Utf8.Decode.{decode_from}
use kxco_post_quantum.Context.{absent, normalize_context}
use kxco_post_quantum.Derive.{DeriveError}
use kxco_post_quantum.Seed.Keys.{SeededKey}
use kxco_post_quantum.Signature.{
  Setup, to_bytes, signature_bytes, ok_or_none, or_false, verify_bytes, verify_message, sign,
  verify,
}
use kxco_post_quantum.Release.Disk.{Disk}
use kxco_post_quantum.Release.Sign.{
  Outcome, signed_all, Signer, Signers, trimmed, not_empty, accepted, written, sign_files,
  sign_with,
}

-- The disks that signing passes through: each file is read, and a signature that the module accepts
-- for its content is written beside it, before the next file.
pub data Signing {ℓ} {D : Type ℓ} (disk : Disk D) (m : Setup) (public_key : Bytes)
    : List Text → D → D → Type ℓ where
  done : {d : D} → Signing disk m public_key [] d d
  signed :
      {f : Text} {fs : List Text} {d d' d'' : D} (content signature : Bytes) (sig : Text)
      → disk.read f d ≡ some content
      → hex_to_bytes sig ≡ ok signature
      → verify_bytes m public_key content signature none ≡ some true
      → written disk f sig d ≡ some d'
      → Signing disk m public_key fs d' d''
      → Signing disk m public_key (f ∷ fs) d d''

hex_read : (r : Result HexError Bytes) (bs : Bytes) → ok_or_none r ≡ some bs → r ≡ ok bs
hex_read (ok b) bs h = cc
hex_read (err e) bs h = cc

yes : (o : Option Bool) → or_false o ≡ true → o ≡ some true
yes none h = cc
yes (some b) h = ap some h

verifies_raw :
    (m : Setup) (public_key : Bytes) (message signature : Value)
    → verify_message m public_key message signature none ≡ true
    → (msg : Bytes) × (sig : Bytes) × (to_bytes message ≡ some msg)
      × (signature_bytes signature ≡ some sig)
      × (verify_bytes m public_key msg sig none ≡ some true)
unfolding verify_message
verifies_raw m public_key message signature h = elim (Option-cases (to_bytes message)) [
  | inl e ↦ cc (rw (e, verify_message) at h)
  | inr (msg, e) ↦ elim (Option-cases (signature_bytes signature)) [
    | inl r ↦ cc (rw (e, verify_message, r) at h)
    | inr (sig, r) ↦ (msg, sig, e, r, yes _ (rw (e, verify_message, r) at h))
  ]
]

-- A signature that is accepted is the hex of one that the backend accepts.
accepted-verifies :
    (m : Setup) (public_key content : Bytes) (sig : Text)
    → accepted (verify m public_key (u8 content) (text sig) absent) ≡ true
    → (signature : Bytes) × (hex_to_bytes sig ≡ ok signature)
      × (verify_bytes m public_key content signature none ≡ some true)
unfolding verify normalize_context to_bytes signature_bytes
accepted-verifies m public_key content sig h =
    let (msg, signature, e, r, good) = verifies_raw m public_key (u8 content) (text sig) h in
    (
      signature,
      hex_read _ signature r,
      subst (λ x. verify_bytes m public_key x signature none ≡ some true) (some_same (sym e)) good,
    )
  where
    some_same : {a b : Bytes} → some a ≡ some b → a ≡ b
    some_same p = cc

module _ {ℓ} {D : Type ℓ} (disk : Disk D) where
  pub stopped :
      {d d' : D} {o : Outcome} → ◌≡◌ {A = D × Outcome} (d, o) (d', signed_all) → o ≢ signed_all → ⊥
  stopped h n = n (ap (λ p. p.1) h)

  pub sign_files-Signing :
      (m : Setup) (kp : SeededKey) (fs : List Text) (d d' : D)
      → sign_files disk m kp fs d ≡ (d', signed_all)
      → Signing disk m kp.public_key fs d d'
  unfolding sign_files
  sign_files-Signing m kp [] d d' h =
      subst (Signing disk m kp.public_key [] d) (ap (λ p. p.0) h) done
  sign_files-Signing m kp (f ∷ fs) d d' h = elim (Option-cases (disk.read f d)) [
    | inl e ↦ absurd (stopped (rw (e, sign_files) at h) (λ p. cc))
    | inr (content, r) ↦ elim (Result-cases (sign m kp.secret_key (u8 content) absent)) [
      | inr (e, failed) ↦ absurd (stopped (rw (r, sign_files, failed) at h) (λ p. cc))
      | inl (sig, made) ↦
          elim (Bool-cases (accepted (verify m kp.public_key (u8 content) (text sig) absent))) [
            | inr refused ↦ absurd (stopped (rw (r, sign_files, made, refused) at h) (λ p. cc))
            | inl good ↦ elim (Option-cases (written disk f sig d)) [
              | inl e ↦ absurd (stopped (rw (r, sign_files, made, good, e) at h) (λ p. cc))
              | inr (d1, w) ↦
                  let (signature, read, verifies) =
                    accepted-verifies m kp.public_key content sig good in
                  signed content signature sig r read verifies w
                    (sign_files-Signing m kp fs d1 d' (rw (r, sign_files, made, good, w) at h))
            ]
          ]
    ]
  ]

  pub sign_with-Signing :
      (s : Signer) (derived : Result DeriveError SeededKey) (fs : List Text) (d d' : D)
      → sign_with disk s derived fs d ≡ (d', signed_all)
      → (kp : SeededKey) × (expected : Bytes) × (derived ≡ ok kp)
        × (s.published ≡ some expected)
        × (bytes_to_hex kp.public_key ≡ trim (decode_from none expected))
        × Signing disk s.setup kp.public_key fs d d'
  unfolding sign_with
  sign_with-Signing s (err e) fs d d' h = absurd (stopped h (λ p. cc))
  sign_with-Signing s (ok kp) fs d d' h = elim (Option-cases s.published) [
    | inl e ↦ absurd (stopped (rw e at h) (λ p. cc))
    | inr (expected, e) ↦
        let key = bytes_to_hex kp.public_key in
        let line = trim (decode_from none expected) in
        elim (Bool-cases (text_eq key line)) [
          | inr other ↦ absurd (stopped (rw (e, other) at h) (λ p. cc))
          | inl same ↦ (
            kp,
            expected,
            refl,
            e,
            (text_eq_iff key line).0 same,
            sign_files-Signing s.setup kp fs d d' (rw (e, same) at h),
          )
        ]
  ]

-- The signer that the seeds choose.
abbrev pub chosen : Signers → Signer
chosen s = if not_empty (trimmed s.seed_87) then s.with_87 else s.with_65
