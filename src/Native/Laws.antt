-- ===== src/Native/Laws.antt =====
-- What `native` of src/_native.node.js needs before it is given a context.
use kxco_post_quantum.Prelude.{
  ◌≡◌, refl, sym, ap, ◌∙◌, Bool, true, false, ◌&&◌, arith, List, [], ◌∷◌, All, Option, none, some,
  Option-cases, Bool-cases, inl, inr, if◌then◌else◌, Text, Bytes, codes, text_eq,
}
use mathlib.Core.Path.{subst}
use kxco_post_quantum.Native.{
  Entry, algorithms, Crypto, PrivateKey, PublicKey, Spec, probe_entry, probe_all, probe, get_spec,
  is_verdict, probe_pair, probe_context, supports_context,
}

abbrev pub message : Bytes
message = codes "kxco-pq context probe"

-- A signature under one context verifies under that context and not under another.
abbrev pub HonoursContext : Crypto → PrivateKey → PublicKey → Type 0
HonoursContext c private_key public_key =
    (signed : Bytes) × (c.sign private_key message (some (codes "a")) ≡ some signed)
    × (c.verify public_key message (some (codes "a")) signed ≡ some true)
    × (c.verify public_key message (some (codes "b")) signed ≡ some false)

verdict_of : (b : Bool) (v : Option Bool) → is_verdict b v ≡ true → v ≡ some b
verdict_of true (some true) h = refl
verdict_of false (some false) h = refl
verdict_of true (some false) h = cc
verdict_of false (some true) h = cc
verdict_of true none h = cc
verdict_of false none h = cc

both : (a b : Bool) → (a && b) ≡ true → (a ≡ true) × (b ≡ true)
both a b h = ground arith

probe_pair-HonoursContext :
    (c : Crypto) (private_key : PrivateKey) (public_key : PublicKey)
    → probe_pair c private_key public_key ≡ true
    → HonoursContext c private_key public_key
unfolding probe_pair
probe_pair-HonoursContext c private_key public_key h =
    elim (Option-cases (c.sign private_key message (some (codes "a")))) [
      | inl e ↦ cc (rw (e, probe_pair) at h)
      | inr (signed, e) ↦
          let (same, other) = both _ _ (rw (e, probe_pair) at h) in
          (signed, e, verdict_of true _ same, verdict_of false _ other)
    ]

entered : (b : Bool) (t s : Spec) → (if b then none else some t) ≡ some s → s.entry ≡ t.entry
entered true t s p = cc
entered false t s p = ap (λ (x : Spec). x.entry) (sym (same p))
  where
    same : some t ≡ some s → t ≡ s
    same q = cc

-- A row of the table that the loop of `probe` makes stands for its set.
probe_entry-entry : (c : Crypto) (e : Entry) (s : Spec) → probe_entry c e ≡ some s → s.entry ≡ e
unfolding probe_entry
probe_entry-entry c e s h = elim (Option-cases (c.generate e.node_name)) [
  | inl none_made ↦ cc (rw (none_made, probe_entry) at h)
  | inr (exported, made) ↦ entered _ _ s (rw (made, probe_entry) at h)
]

-- The rows of the table under this name are so.
abbrev pub AllNamed : (Entry → Type 0) → (name : Text) → List Entry → Type 0
AllNamed P name es = All (λ (e : Entry). text_eq e.name name ≡ true → P e) es

pub get_spec-probe_all :
    (P : Entry → Type 0) (c : Crypto) (name : Text) (es : List Entry) (s : Spec)
    → AllNamed P name es
    → get_spec name (probe_all c es) ≡ some s
    → P s.entry
unfolding probe_all get_spec
get_spec-probe_all P c name [] s h p = cc
get_spec-probe_all P c name (e ∷ es) s (h, hs) p = elim (Option-cases (probe_entry c e)) [
  | inl skipped ↦ get_spec-probe_all P c name es s hs (rw skipped at p)
  | inr (t, made) ↦ elim (Bool-cases (text_eq t.entry.name name)) [
    | inl found ↦
        let same = probe_entry-entry c e t made in
        subst P (sym same ∙ ap (λ (x : Spec). x.entry) (some_same (rw (made, found) at p)))
          (h (ap (λ (x : Entry). text_eq x.name name) (sym same) ∙ found))
    | inr other ↦ get_spec-probe_all P c name es s hs (rw (made, other) at p)
  ]
]
  where
    some_same : {a b : Spec} → some a ≡ some b → a ≡ b
    some_same q = cc

ml_dsa_44-IsTyped : AllNamed (λ e. e.node_name ≡ codes "ml-dsa-44") (codes "ML-DSA-44") algorithms
ml_dsa_44-IsTyped = (
  λ h. refl,
  (λ h. cc, (λ h. cc, (λ h. cc, (λ h. cc, (λ h. cc, (λ h. cc, (λ h. cc, (λ h. cc, tt)))))))),
)

-- A key pair of ML-DSA-44, made with these random bytes, honours the context.
abbrev pub MadeHonest : Crypto → Bytes → Type 0
MadeHonest c random =
    (private_key : PrivateKey) × (public_key : PublicKey) × (c.generate_pair random
        (codes "ml-dsa-44")
      ≡ some (private_key, public_key))
    × HonoursContext c private_key public_key

probe_context-MadeHonest :
    (c : Crypto) (random : Bytes) → probe_context c random ≡ true → MadeHonest c random
unfolding probe probe_context
probe_context-MadeHonest c random h = elim (Option-cases (get_spec (codes "ML-DSA-44") (probe c))) [
  | inl e ↦ cc (rw (e, probe_context) at h)
  | inr (spec, e) ↦
      let named =
        get_spec-probe_all (λ x. x.node_name ≡ codes "ml-dsa-44") c (codes "ML-DSA-44") algorithms
          spec ml_dsa_44-IsTyped e in
      elim (Option-cases (c.generate_pair random spec.entry.node_name)) [
        | inl failed ↦ cc (rw (e, failed, probe_context) at h)
        | inr (pair, made) ↦ (
          pair.0,
          pair.1,
          ap (c.generate_pair random) (sym named) ∙ made,
          probe_pair-HonoursContext c pair.0 pair.1 (rw (e, made, probe_context) at h),
        )
      ]
]

pub supports_context-HonoursContext :
    (c : Crypto) (random : Bytes) → (supports_context c random none).0 ≡ true → MadeHonest c random
unfolding supports_context
supports_context-HonoursContext c random h = probe_context-MadeHonest c random h

-- The answer of the first probe is the answer of every later one, whatever keys they would make.
pub supports_context-again :
    (c : Crypto) (random later : Bytes) (memo : Option Bool)
    → let (honoured, memo') = supports_context c random memo in
      supports_context c later memo' ≡ (honoured, memo')
unfolding supports_context
supports_context-again c random later (some b) = refl
supports_context-again c random later none = refl
