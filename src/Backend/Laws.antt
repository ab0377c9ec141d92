-- ===== src/Backend/Laws.antt =====
-- When `requireNativeBackend` of src/backend.js lets a process continue.
use kxco_post_quantum.Prelude.{
  ◌≡◌, ◌↔◌, refl, sym, ap, true, Bool-cases, inl, inr, List, [], ◌∷◌, All, Option, none, some, Text,
  Result, ok, err,
}
use mathlib.Core.Path.{subst}
use kxco_post_quantum.Native.Calls.{Native, supports}
use kxco_post_quantum.Native.OperatorPin.{Pin}
use kxco_post_quantum.Backend.{
  Backend, BackendError, backend, is_native, missing_from, kind_of, refuse_missing, require_kind,
  require_backend, require_native_backend,
}

abbrev pub AllNative : Native → List Text → Type 0
AllNative n algorithms = All (λ a. supports n a ≡ true) algorithms

all_native :
    (n : Native) (algorithms : List Text)
    → missing_from (some n) algorithms ≡ []
    → AllNative n algorithms
unfolding missing_from is_native
all_native n [] h = tt
all_native n (a ∷ as') h = elim (Bool-cases (supports n a)) [
  | inl e ↦ (e, all_native n as' (rw e at h))
  | inr e ↦ absurd (not_empty (rw e at h))
]
  where
    not_empty : {b : Text} {bs : List Text} → ◌≡◌ {A = List Text} (b ∷ bs) [] → ⊥
    not_empty p = cc

none_missing :
    (n : Native) (algorithms : List Text)
    → AllNative n algorithms
    → missing_from (some n) algorithms ≡ []
unfolding missing_from is_native
none_missing n [] h = refl
none_missing n (a ∷ as') (h, hs) = rw (h, none_missing n as' hs) refl

refused_or_empty :
    (missing : List Text) (b c : Backend)
    → refuse_missing missing b ≡ ok c
    → (missing ≡ []) × (c ≡ b)
refused_or_empty [] b c h = (refl, cc)
refused_or_empty (a ∷ as') b c h = cc

-- Whatever is returned, it is returned if and only if the native backend is there, provides every
-- parameter set that is asked for, and what is returned is its description; so in every other case the
-- process is stopped by an error.
pub require_native_backend_iff :
    (pinned : Option Pin) (n : Option Native) (algorithms : List Text) (b : Backend)
    → (require_native_backend pinned n algorithms ≡ ok b)
      ↔ ((o : Native) × (n ≡ some o) × AllNative o algorithms × (b ≡ backend pinned n))
unfolding require_native_backend require_backend kind_of require_kind backend
require_native_backend_iff pinned none algorithms b =
    (λ h. absurd (differ h), λ h. absurd (apart h.1))
  where
    differ : {e : BackendError} → ◌≡◌ {A = Result BackendError Backend} (err e) (ok b) → ⊥
    differ p = cc

    apart : {o : Native} → ◌≡◌ {A = Option Native} none (some o) → ⊥
    apart p = cc
require_native_backend_iff pinned (some o) algorithms b = (
  λ h.
      let (empty, same) = refused_or_empty _ _ _ h in
      (o, refl, all_native o algorithms empty, same),
  λ h. rw (none_missing o algorithms (own h.0 h.1 h.2)) (ap ok (sym h.3)),
)
  where
    own : (m : Native) → some o ≡ some m → AllNative m algorithms → AllNative o algorithms
    own m e all = subst (λ x. AllNative x algorithms) (injective e) all
      where
        injective : ◌≡◌ {A = Option Native} (some o) (some m) → m ≡ o
        injective p = cc
