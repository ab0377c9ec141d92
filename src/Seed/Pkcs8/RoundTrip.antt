-- ===== src/Seed/Pkcs8/RoundTrip.antt =====
-- The seed-form PKCS#8 that is exported is read back, whatever follows it.
use kxco_post_quantum.Prelude.{
  ℕ, ◌+◌, ◌≡◌, refl, ap, [], ◌∷◌, ◌++◌, arith, length, take, take-append, take_all, take-add-append,
  length-take, All, All-append, ◌≤◌, Bytes, IsByte, ok, ==_refl, length-append, ◌<◌,
}
use native.Mathlib.Nat.{mod-eq_of_lt}
use mathlib.Core.List.{append_assoc}
use kxco_post_quantum.Value.{u8, text, uint8_from}
use kxco_post_quantum.Seed.Params.{ParamSet, ml_dsa_65, ml_dsa_87, ml_kem_768, ml_kem_1024, params}
use kxco_post_quantum.Seed.Keys.Laws.{params_for_name}
use kxco_post_quantum.Seed.Der.{der}
use kxco_post_quantum.Seed.Der.Laws.{der_short}
use kxco_post_quantum.Seed.Pkcs8.{seed_pkcs8, export_seed_pkcs8, import_seed_pkcs8}

-- The 22 bytes before the seed.
abbrev pub header : ParamSet → Bytes
header a =
    0x30
    ∷ ((params a).seed_bytes + 20)
    ∷ 0x02
    ∷ 0x01
    ∷ 0x00
    ∷ 0x30
    ∷ 0x0b
    ∷ 0x06
    ∷ 0x09
    ∷ ((params a).oid ++ 0x04 ∷ ((params a).seed_bytes + 2) ∷ 0x80 ∷ (params a).seed_bytes ∷ [])

seed_pkcs8_form_of :
    (n : ℕ) (oid seed : Bytes)
    → length oid ≡ 9
    → length seed ≡ n
    → n < 100
    → der 0x30 (der 0x02 (0x00 ∷ []) ++ der 0x30 (der 0x06 oid) ++ der 0x04 (der 0x80 seed))
      ≡ 0x30
        ∷ (n + 20)
        ∷ 0x02
        ∷ 0x01
        ∷ 0x00
        ∷ 0x30
        ∷ 0x0b
        ∷ 0x06
        ∷ 0x09
        ∷ (oid ++ 0x04 ∷ (n + 2) ∷ 0x80 ∷ n ∷ seed)
seed_pkcs8_form_of n oid seed ho hs small =
    rw
      (
        der_short 0x80 n seed hs (omega arith),
        der_short 0x04 (n + 2) (0x80 ∷ n ∷ seed) (omega arith) (omega arith),
        der_short 0x06 9 oid ho (omega arith),
        der_short 0x30 11 (0x06 ∷ 0x09 ∷ oid) (omega arith) (omega arith),
        der_short 0x02 1 (0x00 ∷ []) refl (omega arith),
      )
      (der_short 0x30 (n + 20) _
        (omega (arith, length-append oid (0x04 ∷ (n + 2) ∷ 0x80 ∷ n ∷ seed))) (omega arith))

pub seed_pkcs8_form :
    (a : ParamSet) (seed : Bytes)
    → length seed ≡ (params a).seed_bytes
    → seed_pkcs8 a seed ≡ header a ++ seed
unfolding seed_pkcs8
seed_pkcs8_form ml_dsa_65 seed h =
    seed_pkcs8_form_of 32 (params ml_dsa_65).oid seed refl h (omega arith)
seed_pkcs8_form ml_dsa_87 seed h =
    seed_pkcs8_form_of 32 (params ml_dsa_87).oid seed refl h (omega arith)
seed_pkcs8_form ml_kem_768 seed h =
    seed_pkcs8_form_of 64 (params ml_kem_768).oid seed refl h (omega arith)
seed_pkcs8_form ml_kem_1024 seed h =
    seed_pkcs8_form_of 64 (params ml_kem_1024).oid seed refl h (omega arith)

uint8_from_bytes : (bs : Bytes) → All IsByte bs → uint8_from bs ≡ bs
uint8_from_bytes [] h = refl
uint8_from_bytes (b ∷ bs) h = cc (mod-eq_of_lt h.0, uint8_from_bytes bs h.1)

header-IsByte : (a : ParamSet) → All IsByte (header a)
header-IsByte ml_dsa_65 = omega arith
header-IsByte ml_dsa_87 = omega arith
header-IsByte ml_kem_768 = omega arith
header-IsByte ml_kem_1024 = omega arith

length-header : (a : ParamSet) → length (header a) ≡ 22
length-header ml_dsa_65 = refl
length-header ml_dsa_87 = refl
length-header ml_kem_768 = refl
length-header ml_kem_1024 = refl

-- With the seed's length the export succeeds, and writes the header and the seed.
pub export_seed_pkcs8_form :
    (a : ParamSet) (seed : Bytes)
    → length seed ≡ (params a).seed_bytes
    → All IsByte seed
    → export_seed_pkcs8 (text (params a).name) (u8 seed) ≡ ok (header a ++ seed)
unfolding export_seed_pkcs8
export_seed_pkcs8_form a seed h hb =
    rw (params_for_name a, h, ==_refl (params a).seed_bytes)
      (ap ok (
        rw (seed_pkcs8_form a seed h)
          (uint8_from_bytes _ (All-append IsByte (header a) seed (header-IsByte a) hb))))

-- Reading a header and any bytes behind it: the seed is what stands there, cut at its length.
pub import-header :
    (a : ParamSet) (tail : Bytes)
    → import_seed_pkcs8 (u8 (header a ++ tail))
      ≡ ok (record { alg = a; seed = take (params a).seed_bytes tail })
unfolding import_seed_pkcs8
import-header ml_dsa_65 tail = refl
import-header ml_dsa_87 tail = refl
import-header ml_kem_768 tail = refl
import-header ml_kem_1024 tail = refl

-- For each parameter set and each seed of its length, made of bytes, the export succeeds, and the import of what
-- it wrote, with any bytes behind it, gives back the parameter set and the seed.
pub import-export :
    (a : ParamSet) (seed rest : Bytes)
    → length seed ≡ (params a).seed_bytes
    → All IsByte seed
    → (d : Bytes) × (export_seed_pkcs8 (text (params a).name) (u8 seed) ≡ ok d)
      × (import_seed_pkcs8 (u8 (d ++ rest)) ≡ ok (record { alg = a; seed = seed }))
import-export a seed rest h hb = (
  header a ++ seed,
  export_seed_pkcs8_form a seed h hb,
  rw (append_assoc, import-header a (seed ++ rest), take-append seed rest _ h),
)

-- The import does not look at how many bytes there are: cut after n bytes of the seed, what the
-- export wrote is still read without an error, and the seed that is returned has the n bytes.
pub import-export_cut :
    (a : ParamSet) (seed : Bytes) (n : ℕ)
    → length seed ≡ (params a).seed_bytes
    → All IsByte seed
    → n ≤ (params a).seed_bytes
    → (d : Bytes) × (export_seed_pkcs8 (text (params a).name) (u8 seed) ≡ ok d)
      × (import_seed_pkcs8 (u8 (take (22 + n) d)) ≡ ok (record { alg = a; seed = take n seed }))
import-export_cut a seed n h hb le = (
  header a ++ seed,
  export_seed_pkcs8_form a seed h hb,
  rw (
    take-add-append (header a) seed (22 + n) n (rw (length-header a)),
    import-header a (take n seed),
    take_all (take n seed) (params a).seed_bytes (omega (arith, length-take n seed)),
  ),
)
