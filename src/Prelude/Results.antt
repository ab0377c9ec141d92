-- ===== src/Prelude/Results.antt =====
-- A call that may throw: `ok` is the value that it returns, `err` the error that it throws.
use mathlib.Core.Path.{◌≡◌, refl}
use mathlib.Core.Bool.{Bool, true, false}
use mathlib.Core.Option.{Option, none, some}
use mathlib.Core.Logic.{◌⊎◌, inl, inr}

pub data Result {ℓ κ} (E : Type ℓ) (A : Type κ) : Type (ℓ ⊔ κ) where
  ok : A → Result E A
  err : E → Result E A

infixl 5 ◌>>=◌ ◌>>◌
abbrev pub ◌>>=◌ {ε ℓ κ} :
    {E : Type ε} {A : Type ℓ} {B : Type κ} → Result E A → (A → Result E B) → Result E B
err thrown >>= next = err thrown
ok a >>= next = next a

abbrev pub ◌>>◌ {ε ℓ} : {E : Type ε} {B : Type ℓ} → Result E (Unit {0}) → Result E B → Result E B
m >> k = m >>= λ _. k

-- `if (!b) throw e`
abbrev pub require {ε} : {E : Type ε} → Bool → E → Result E (Unit {0})
require true e = ok tt
require false e = err e

-- `if (o === undefined) throw e`
abbrev pub require_some {ε ℓ} : {E : Type ε} {A : Type ℓ} → Option A → E → Result E A
require_some (some a) e = ok a
require_some none e = err e

-- A chain that returned: what its first call returned, and that the rest went on from there.
pub >>=-eq-ok {ε ℓ κ} :
    {E : Type ε} {A : Type ℓ} {B : Type κ} (call : Result E A) (next : A → Result E B) {out : B}
    → (call >>= next) ≡ ok out
    → (mid : A) × (call ≡ ok mid) × (next mid ≡ ok out)
>>=-eq-ok (ok mid) next returned = (mid, refl, returned)
>>=-eq-ok (err thrown) next returned = cc

pub Result-cases {ε ℓ} :
    {E : Type ε} {A : Type ℓ} (m : Result E A) → ((a : A) × (m ≡ ok a)) ⊎ ((e : E) × (m ≡ err e))
Result-cases (ok a) = inl (a, refl)
Result-cases (err e) = inr (e, refl)

pub required {ε} : {E : Type ε} (b : Bool) (e : E) {u : Unit {0}} → require b e ≡ ok u → b ≡ true
required true e h = refl
required false e h = cc

pub ok-injective {ε ℓ} :
    {E : Type ε} {A : Type ℓ} {a b : A} → ◌≡◌ {A = Result E A} (ok a) (ok b) → a ≡ b
ok-injective h = cc
