-- ===== src/Kem/RoundTrip.antt =====
-- What one party seals with src/ml-kem.js or src/ml-kem-1024.js the other opens, on either backend.
use kxco_post_quantum.Prelude.{
  ◌≡◌, refl, sym, ap, ◌∙◌, ◌&&◌, ◌||◌, ◌⊎◌, Bool, true, false, Bool-cases, inl, inr, Option,
  Option-cases, none, some, if◌then◌else◌, Text, Bytes, codes, ok, ok-injective, Result-cases,
}
use mathlib.Core.Path.{subst}
use kxco_post_quantum.Native.{
  kem, Crypto, algorithms, Spec, probe, get_spec, private_key_object, public_key_object,
}
use kxco_post_quantum.Native.Laws.{AllNamed, get_spec-probe_all}
use kxco_post_quantum.Native.OperatorPin.{Pin}
use kxco_post_quantum.Native.Calls.{
  is_kem, Native, is_pinned_to_javascript, is_empty, native, supports, Encapsulated, Thrown,
}
use kxco_post_quantum.Native.Calls
use kxco_post_quantum.Kem.{
  or_null_throws, KemSetup, Sealed, uses_native, encapsulate_raw, encapsulate, decapsulate,
}

-- Both backends of the receiver recover this secret from this ciphertext with the secret key.
pub record Opens (m : KemSetup) (secret_key : Bytes) (r : Encapsulated) : Type 0 where
  pub js_opens : m.js.decapsulate r.cipher_text secret_key ≡ some r.shared_secret
  pub native_opens :
      (n : Native) (spec : Spec)
      → m.native ≡ some n
      → get_spec m.native_alg n.supported ≡ some spec
      → n.crypto.decapsulate (private_key_object spec secret_key none) r.cipher_text
        ≡ some r.shared_secret

-- What either backend of the sender makes for the public key is opened by both of the receiver.
pub record Interoperable (sender receiver : KemSetup) (public_key secret_key : Bytes) : Type 0 where
  pub js_seals :
      (random : Bytes) (r : Encapsulated)
      → sender.js.encapsulate random public_key ≡ some r
      → Opens receiver secret_key r
  pub native_seals :
      (n : Native) (spec : Spec) (random cipher_text shared_secret : Bytes)
      → sender.native ≡ some n
      → get_spec sender.native_alg n.supported ≡ some spec
      → n.crypto.encapsulate random (public_key_object spec public_key)
        ≡ some (cipher_text, shared_secret)
      → Opens receiver secret_key
          (record { cipher_text = cipher_text; shared_secret = shared_secret })

if_some {ℓ} :
    {A : Type ℓ} (b : Bool) (x y : A) → (if b then some x else none) ≡ some y → (b ≡ true) × (x ≡ y)
if_some true x y h = (refl, cc)
if_some false x y h = cc

uses_native-some : (m : KemSetup) (n : Native) → uses_native m ≡ some n → m.native ≡ some n
unfolding uses_native
uses_native-some m n h = elim (Option-cases m.native) [
  | inl e ↦ cc (rw (e, uses_native) at h)
  | inr (k, e) ↦ e ∙ ap some (if_some _ k n (rw (e, uses_native) at h)).1
]

uses_native-supports :
    (m : KemSetup) (n : Native) → uses_native m ≡ some n → supports n m.native_alg ≡ true
unfolding uses_native
uses_native-supports m n h = elim (Option-cases m.native) [
  | inl e ↦ cc (rw (e, uses_native) at h)
  | inr (k, e) ↦
      let (used, same) = if_some _ k n (rw (e, uses_native) at h) in
      ap (λ x. supports x m.native_alg) (sym same) ∙ used
]

native-supported :
    (pin : Option Pin) (c : Crypto) (honours has_buffer : Bool) (n : Native)
    → native pin c honours has_buffer ≡ some n
    → n.supported ≡ probe c
unfolding native
native-supported pin c honours has_buffer n h =
    elim (Bool-cases (is_pinned_to_javascript pin || is_empty (probe c))) [
      | inl e ↦ cc (rw e at h)
      | inr e ↦ ap (λ (x : Native). x.supported) (sym (same (rw e at h)))
    ]
  where
    same : {x y : Native} → ◌≡◌ {A = Option Native} (some x) (some y) → x ≡ y
    same e = cc

-- The names of the two modules.
abbrev pub IsKemName : Text → Type 0
IsKemName alg = (alg ≡ codes "ML-KEM-768") ⊎ (alg ≡ codes "ML-KEM-1024")

kem_rows : (alg : Text) → IsKemName alg → AllNamed (λ e. e.kind ≡ kem) alg algorithms
kem_rows alg (inl e) =
    subst (λ a. AllNamed (λ x. x.kind ≡ kem) a algorithms) (sym e)
      (
        λ h. cc,
        (
          λ h. cc,
          (λ h. cc, (λ h. refl, (λ h. refl, (λ h. refl, (λ h. cc, (λ h. cc, (λ h. cc, tt))))))),
        ),
      )
kem_rows alg (inr e) =
    subst (λ a. AllNamed (λ x. x.kind ≡ kem) a algorithms) (sym e)
      (
        λ h. cc,
        (
          λ h. cc,
          (λ h. cc, (λ h. refl, (λ h. refl, (λ h. refl, (λ h. cc, (λ h. cc, (λ h. cc, tt))))))),
        ),
      )

-- The row that a table which was probed has for the set is one of a KEM.
IsKemTable : KemSetup → Type 0
IsKemTable m =
    (n : Native) (spec : Spec)
    → m.native ≡ some n
    → get_spec m.native_alg n.supported ≡ some spec
    → spec.entry.kind ≡ kem

native-IsKemTable :
    (pin : Option Pin) (c : Crypto) (honours has_buffer : Bool) (m : KemSetup)
    → IsKemName m.native_alg
    → m.native ≡ native pin c honours has_buffer
    → IsKemTable m
unfolding probe IsKemTable
native-IsKemTable pin c honours has_buffer m name e n spec there found =
    get_spec-probe_all (λ x. x.kind ≡ kem) c m.native_alg algorithms spec
      (kem_rows m.native_alg name)
      (ap (get_spec m.native_alg)
          (sym (native-supported pin c honours has_buffer n (sym e ∙ there)))
        ∙ found)

supports-found :
    (n : Native) (alg : Text)
    → supports n alg ≡ true
    → (spec : Spec) × (get_spec alg n.supported ≡ some spec)
unfolding supports
supports-found n alg h = elim (Option-cases (get_spec alg n.supported)) [
  | inl e ↦ absurd (never n.has_buffer (rw (e, supports) at h))
  | inr (spec, e) ↦ (spec, e)
]
  where
    never : (b : Bool) → (b && false) ≡ true → ⊥
    never true p = cc
    never false p = cc

decapsulate-Opens :
    (m : KemSetup) (secret_key : Bytes) (r : Encapsulated)
    → IsKemTable m
    → Opens m secret_key r
    → decapsulate m r.cipher_text secret_key ≡ ok r.shared_secret
unfolding decapsulate Calls.decapsulate IsKemTable
decapsulate-Opens m secret_key r kems opens = elim (Option-cases (uses_native m)) [
  | inl e ↦ rw (decapsulate, e, opens.js_opens) refl
  | inr (n, e) ↦
      let there = uses_native-some m n e in
      let (spec, found) = supports-found n m.native_alg (uses_native-supports m n e) in
      rw
        (
          decapsulate,
          e,
          Calls.decapsulate,
          found,
          kems n spec there found,
          opens.native_opens n spec there found,
        )
        refl
]

encapsulate_raw-Opens :
    (sender receiver : KemSetup) (random public_key secret_key : Bytes) (r : Encapsulated)
    → Interoperable sender receiver public_key secret_key
    → encapsulate_raw sender random public_key ≡ ok r
    → Opens receiver secret_key r
unfolding encapsulate_raw Calls.encapsulate
encapsulate_raw-Opens sender receiver random public_key secret_key r inter h =
    elim (Option-cases (uses_native sender)) [
      | inl e ↦ elim (Option-cases (sender.js.encapsulate random public_key)) [
        | inl e2 ↦ cc (rw (e, e2, encapsulate_raw) at h)
        | inr (made, e2) ↦
            subst (Opens receiver secret_key) (ok-injective (rw (e, e2, encapsulate_raw) at h))
              (inter.js_seals random made e2)
      ]
      | inr (n, e) ↦
          let (spec, found) =
            supports-found n sender.native_alg (uses_native-supports sender n e) in
          native_made n spec (uses_native-some sender n e) found (rw (e, encapsulate_raw) at h)
    ]
  where
    native_made :
        (n : Native) (spec : Spec)
        → sender.native ≡ some n
        → get_spec sender.native_alg n.supported ≡ some spec
        → or_null_throws (Calls.encapsulate n random sender.native_alg public_key) ≡ ok r
        → Opens receiver secret_key r
    native_made n spec there found p = elim (Bool-cases (is_kem spec.entry.kind)) [
      | inr other ↦ cc (rw (Calls.encapsulate, found, other) at p)
      | inl fits ↦
          elim (Option-cases (n.crypto.encapsulate random (public_key_object spec public_key))) [
            | inl e2 ↦ cc (rw (Calls.encapsulate, found, fits, e2) at p)
            | inr ((cipher_text, shared_secret), e2) ↦
                subst (Opens receiver secret_key)
                  (ok-injective (rw (Calls.encapsulate, found, fits, e2) at p))
                  (inter.native_seals n spec random cipher_text shared_secret there found e2)
          ]
    ]

-- What `encapsulate` returns for a public key, `decapsulate` takes back: under either spelling of the
-- ciphertext it returns the shared secret, and does not throw. This holds for ML-KEM-768 and
-- ML-KEM-1024 on any choice of backend at the two ends, where the receiver's native backend, if there
-- is one, is what the probe of its process made, and where the raw operations of the two ends agree on
-- the key pair.
pub decapsulate-encapsulate :
    (sender receiver : KemSetup) (pin : Option Pin) (c : Crypto) (honours has_buffer : Bool)
    (random public_key secret_key : Bytes) (sealed : Sealed)
    → IsKemName receiver.native_alg
    → receiver.native ≡ native pin c honours has_buffer
    → Interoperable sender receiver public_key secret_key
    → encapsulate sender random public_key ≡ ok sealed
    → (decapsulate receiver sealed.ciphertext secret_key ≡ ok sealed.shared_secret)
      × (decapsulate receiver sealed.cipher_text secret_key ≡ ok sealed.shared_secret)
unfolding encapsulate
decapsulate-encapsulate sender receiver pin c honours has_buffer random public_key secret_key sealed
      name probed inter h =
    elim (Result-cases (encapsulate_raw sender random public_key)) [
      | inr (e, failed) ↦ cc (rw (failed, encapsulate) at h)
      | inl (r, made) ↦
          let opened =
            decapsulate-Opens receiver secret_key r
              (native-IsKemTable pin c honours has_buffer receiver name probed)
              (encapsulate_raw-Opens sender receiver random public_key secret_key r inter made) in
          let same = ok-injective (rw (made, encapsulate) at h) in
          (
            subst (λ s. decapsulate receiver s.ciphertext secret_key ≡ ok s.shared_secret) same
                opened,
            subst (λ s. decapsulate receiver s.cipher_text secret_key ≡ ok s.shared_secret) same
                opened,
          )
    ]
