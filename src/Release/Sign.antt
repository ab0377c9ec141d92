-- ===== src/Release/Sign.antt =====
-- scripts/sign-release.mjs: the signatures of release files, each beside its file. The two signature
-- modules, their key generation, HKDF and the disk are parameters.
use kxco_post_quantum.Prelude.{
  Bool, true, false, ◌&&◌, ◌==◌, List, [], ◌∷◌, ◌++◌, Option, none, some, if◌then◌else◌, length,
  all, Text, Bytes, codes, text_eq, Result, ok, err,
}
use kxco_post_quantum.Value.{Value, u8, text, undefined}
use kxco_post_quantum.Codec.Hex.{bytes_to_hex, is_hex, parse_pairs}
use kxco_post_quantum.Codec.Trim.{trim}
use kxco_post_quantum.Codec.Utf8.{utf8}
use kxco_post_quantum.Codec.Utf8.Decode.{decode_from}
use kxco_post_quantum.Context.{absent}
use kxco_post_quantum.Derive.{DeriveError}
use kxco_post_quantum.Seed.Keys.{SeededKey}
use kxco_post_quantum.Signature.{Setup, sign, verify}
use kxco_post_quantum.Context.{ContextError}
use kxco_post_quantum.Release.Disk.{Disk}

-- How the process ends. What was written before a failure stays.
pub data Outcome : Type 0 where
  signed_all usage bad_seed threw other_key : Outcome
  not_verified : Text → Outcome

-- A signature module of src/index.js with its `keypairFromMaster`, and the published key's file.
pub record Signer : Type 0 where
  pub setup : Setup
  pub keypair : Value → Value → Result DeriveError SeededKey
  pub published : Option Bytes

-- `mlDsa87` and `mlDsa`, and the two environment variables.
pub record Signers : Type 0 where
  pub with_87 : Signer
  pub with_65 : Signer
  pub seed_87 : Option Text
  pub seed_65 : Option Text

abbrev pub trimmed : Option Text → Text
trimmed none = []
trimmed (some s) = trim s

abbrev pub not_empty : Text → Bool
not_empty [] = false
not_empty (c ∷ s) = true

-- `/^[0-9a-f]{64}$/i`
abbrev pub is_seed_hex : Text → Bool
is_seed_hex s = length s == 64 && all is_hex s

abbrev pub accepted : Result ContextError Bool → Bool
accepted (ok b) = b
accepted (err e) = false

abbrev pub sig_name : Text → Text
sig_name f = f ++ codes ".sig"

-- `${file}.sig`, where the signature was verified.
abbrev pub written {ℓ} : {D : Type ℓ} → Disk D → Text → Text → D → Option D
written disk f sig d = disk.write (sig_name f) (utf8 (sig ++ b'\n' ∷ [])) d

-- The loop over the files.
unfoldable pub sign_files {ℓ} :
    {D : Type ℓ} → Disk D → Setup → SeededKey → List Text → D → D × Outcome
sign_files disk m kp [] d = (d, signed_all)
sign_files disk m kp (f ∷ fs) d = elim (disk.read f d) [
  | none ↦ (d, threw)
  | some bytes ↦ elim (sign m kp.secret_key (u8 bytes) absent) [
    | err e ↦ (d, threw)
    | ok sig ↦
        if accepted (verify m kp.public_key (u8 bytes) (text sig) absent)
        then elim (written disk f sig d) [
          | none ↦ (d, threw)
          | some d' ↦ sign_files disk m kp fs d'
        ]
        else (d, not_verified f)
  ]
]

-- The key pair against the published key.
unfoldable pub sign_with {ℓ} :
    {D : Type ℓ} → Disk D → Signer → Result DeriveError SeededKey → List Text → D → D × Outcome
sign_with disk s (err e) fs d = (d, threw)
sign_with disk s (ok kp) fs d = elim s.published [
  | none ↦ (d, threw)
  | some expected ↦
      let signed = sign_files disk s.setup kp fs d in
      if text_eq (bytes_to_hex kp.public_key) (trim (decode_from none expected))
      then signed
      else (d, other_key)
]

-- The label of the ML-DSA-87 release key.
abbrev pub release_label : Value
release_label = text (codes "kxco-release-signing-87-v1")

unfoldable pub sign_release {ℓ} : {D : Type ℓ} → Disk D → Signers → List Text → D → D × Outcome
sign_release disk s [] d = (d, usage)
sign_release disk s (f ∷ fs) d =
    let use_87 = not_empty (trimmed s.seed_87) in
    let hex = if use_87 then trimmed s.seed_87 else trimmed s.seed_65 in
    let master = u8 (parse_pairs hex) in
    if is_seed_hex hex
    then if use_87
      then sign_with disk s.with_87 (s.with_87.keypair master release_label) (f ∷ fs) d
      else sign_with disk s.with_65 (s.with_65.keypair master undefined) (f ∷ fs) d
    else (d, bad_seed)
