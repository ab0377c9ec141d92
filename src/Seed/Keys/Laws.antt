-- ===== src/Seed/Keys/Laws.antt =====
-- Lookups in the table of parameter sets.
use kxco_post_quantum.Prelude.{ℕ, ◌≡◌, refl, arith, ◌==◌, ok, false}
use kxco_post_quantum.Value.{text}
use kxco_post_quantum.Seed.Params.{
  ParamSet, ml_dsa_65, ml_dsa_87, ml_kem_768, ml_kem_1024, params, params_for,
}

pub params_for_name : (a : ParamSet) → params_for (text (params a).name) ≡ ok a
unfolding params_for
params_for_name ml_dsa_65 = refl
params_for_name ml_dsa_87 = refl
params_for_name ml_kem_768 = refl
params_for_name ml_kem_1024 = refl

pub seed_ne_secret :
    (a : ParamSet) (n : ℕ) → n ≡ (params a).seed_bytes → (n == (params a).secret_key_bytes) ≡ false
seed_ne_secret ml_dsa_65 n h = ground arith
seed_ne_secret ml_dsa_87 n h = ground arith
seed_ne_secret ml_kem_768 n h = ground arith
seed_ne_secret ml_kem_1024 n h = ground arith
