-- ===== src/Signature/Backend.antt =====
-- Which backend a signature with a context is made on: `usesNative` of src/ml-dsa.js over the probe of
-- src/_native.node.js.
use kxco_post_quantum.Prelude.{
  ◌≡◌, refl, sym, ap, ◌∙◌, Bool, true, false, ◌&&◌, ◌||◌, Bool-cases, arith, inl, inr, Option,
  Option-cases, none, some, if◌then◌else◌, Bytes, codes,
}
use kxco_post_quantum.Native.{Crypto, PrivateKey, PublicKey, probe, supports_context}
use kxco_post_quantum.Native.Laws.{HonoursContext, supports_context-HonoursContext}
use kxco_post_quantum.Native.OperatorPin.{Pin}
use kxco_post_quantum.Native.Calls.{Native, is_pinned_to_javascript, is_empty, native, supports}
use kxco_post_quantum.Signature.{Setup, uses_native}

if_some {ℓ} :
    {A : Type ℓ} (b : Bool) (x y : A) → (if b then some x else none) ≡ some y → (b ≡ true) × (x ≡ y)
if_some true x y h = (refl, cc)
if_some false x y h = cc

both : (a b : Bool) → (a && b) ≡ true → (a ≡ true) × (b ≡ true)
both a b h = ground arith

-- What a backend that is used with a context is.
uses_native-some :
    (m : Setup) (context : Bytes) (n : Native)
    → uses_native m (some context) ≡ some n
    → (m.native ≡ some n) × (supports n m.native_alg ≡ true) × (n.honours_context ≡ true)
unfolding uses_native
uses_native-some m context n h = elim (Option-cases m.native) [
  | inl e ↦ cc (rw (e, uses_native) at h)
  | inr (n', e) ↦
      let (used, same) = if_some _ n' n (rw (e, uses_native) at h) in
      let (supported, honoured) = both _ _ used in
      (
        e ∙ ap some same,
        ap (λ x. supports x m.native_alg) (sym same) ∙ supported,
        ap (λ x. x.honours_context) (sym same) ∙ honoured,
      )
]

native-honours :
    (pin : Option Pin) (c : Crypto) (honours has_buffer : Bool) (n : Native)
    → native pin c honours has_buffer ≡ some n
    → (n.crypto ≡ c) × (n.honours_context ≡ honours)
unfolding native
native-honours pin c honours has_buffer n h =
    elim (Bool-cases (is_pinned_to_javascript pin || is_empty (probe c))) [
      | inl e ↦ cc (rw e at h)
      | inr e ↦
          let same = some-injective (rw e at h) in
          (ap (λ x. x.crypto) (sym same), ap (λ x. x.honours_context) (sym same))
    ]
  where
    some-injective : {x y : Native} → ◌≡◌ {A = Option Native} (some x) (some y) → x ≡ y
    some-injective e = cc

-- A call with a context is made on OpenSSL only where the probe of this process made a key pair of
-- ML-DSA-44, signed under one context, saw the signature verify under it, and saw it fail under another.
pub uses_native-HonoursContext :
    (pin : Option Pin) (c : Crypto) (random : Bytes) (has_buffer : Bool) (m : Setup)
    (context : Bytes) (n : Native)
    → m.native ≡ native pin c (supports_context c random none).0 has_buffer
    → uses_native m (some context) ≡ some n
    → (n.crypto ≡ c)
      × ((private_key : PrivateKey) × (public_key : PublicKey) × (c.generate_pair random
              (codes "ml-dsa-44")
            ≡ some (private_key, public_key))
          × HonoursContext c private_key public_key)
uses_native-HonoursContext pin c random has_buffer m context n e used =
    let (there, _, honoured) = uses_native-some m context n used in
    let (same, is_probed) =
      native-honours pin c (supports_context c random none).0 has_buffer n (sym e ∙ there) in
    (same, supports_context-HonoursContext c random (sym is_probed ∙ honoured))
