-- ===== src/Tests/Module.antt =====
-- The theorems on src/fips at concrete inputs.
use kxco_post_quantum.Prelude.{
  ℕ, ◌+◌, ◌≡◌, ◌≤◌, ◌^◌, ◌⊎◌, refl, true, false, List, [], ◌∷◌, none, some, length, take, replicate,
  Bytes, codes, arith, ok,
}
use kxco_post_quantum.Value.{Value, text, u8}
use kxco_post_quantum.Fips.Entropy.{get_entropy, get_entropy-length}
use kxco_post_quantum.Fips.Drbg.{
  Hmac512, Keys, Drbg, step, update, output_loop, generate, update_if_given, reseed_required,
}
use kxco_post_quantum.Fips.Drbg.Invariant.{HmacLaws, IsValid, generate-IsValid}
use kxco_post_quantum.Fips.Drbg.Output.{blocks, generate-blocks}
use kxco_post_quantum.Fips.Services.{
  World, value, throw, fatal, drbg_failed, Algorithms, dsa, ml_dsa_65, ◌>>=◌, kem_of, dsa_of,
  set_of,
}
use kxco_post_quantum.Fips.Services.Random.{random, generate_world}
use kxco_post_quantum.Fips.Services.Random.Laws.{Gives, random-total}
use kxco_post_quantum.Fips.Services.Calls.{
  NewKey, pct_dsa, generate_for, generate_keypair, keypair_from_seed,
}
use kxco_post_quantum.Fips.Services.Pairwise.{agrees, pair_of, generate_keypair-keypair_from_seed}
use kxco_post_quantum.Fips.Machine.{
  Module, error_state, Request, ask_generate, refused, wrong_state, integrity_failed, Boot, stay,
  then_step, served, load, call, serve,
}
use kxco_post_quantum.Fips.Machine.Laws.{IsSound, load-Reaches-IsSound, error_state_is_final}

abbrev pub hmac : Hmac512
hmac k m = replicate 64 9

abbrev hmac_laws : HmacLaws hmac
hmac_laws = record { length_hmac = λ k m. refl }

-- An algorithm suite with fixed answers, and one whose decapsulation throws.
abbrev pub suite : Algorithms
suite = record {
  hmac512 = hmac;
  kem_keygen = λ k seed. record { public_key = seed; secret_key = seed };
  kem_encapsulate = λ k pk m. some (record { cipher_text = m; shared_secret = m });
  kem_decapsulate = λ k ct sk. some ct;
  dsa_keygen = λ d seed. record { public_key = seed; secret_key = seed };
  dsa_sign = λ d msg sk ctx rnd. some rnd;
  dsa_verify = λ d sig msg pk ctx. some true;
}

abbrev broken_suite : Algorithms
broken_suite = record suite { kem_decapsulate = λ k ct sk. none }

abbrev keys : Keys
keys = record { k = replicate 64 9; v = replicate 64 9 }

abbrev live : Drbg
live = record { keys = some keys; counter = 1 }

abbrev world : World
world = record { drbg = live; device = replicate 64 3 ∷ [] }

live-IsValid : IsValid live
live-IsValid = ((refl, refl), omega arith, omega arith)

abbrev chunks : List Bytes
chunks = (1 ∷ 2 ∷ []) ∷ (3 ∷ 4 ∷ 5 ∷ []) ∷ []

abbrev first_four : Bytes
first_four = 1 ∷ 2 ∷ 3 ∷ 4 ∷ []

two_reads : (get_entropy 4 chunks).0 ≡ some first_four
unfolding get_entropy
two_reads = refl

get_entropy-length_example : length first_four ≡ 4
get_entropy-length_example = get_entropy-length 4 chunks first_four two_reads

abbrev after : Drbg
after = record { keys = some keys; counter = 2 }

generates : generate hmac 32 [] live ≡ ok (replicate 32 9, after)
unfolding generate output_loop update step
generates = refl

generate-IsValid_example :
    IsValid after
    × (after.counter ≡ live.counter + 1)
    × (live.counter ≤ 2 ^ 20)
    × (1 ≤ 32)
    × (32 ≤ 65536)
generate-IsValid_example =
    generate-IsValid hmac hmac_laws 32 [] (replicate 32 9) live after generates

generate-blocks_example :
    (s : Keys) × (live.keys ≡ some s)
    × (replicate 32 9
        ≡ take 32
            (blocks hmac hmac_laws 32 (update_if_given hmac [] s).k (update_if_given hmac [] s).v))
    × (length {A = ℕ} (replicate 32 9) ≡ 32)
generate-blocks_example = generate-blocks hmac hmac_laws 32 [] (replicate 32 9) live after generates

random-total_example :
    Gives hmac hmac_laws 32 (random hmac 32 world)
    ⊎ ((reseed_required live ≡ true)
        × ((get_entropy 48 world.device).0 ≡ none)
        × ((random hmac 32 world).0 ≡ throw (fatal drbg_failed)))
random-total_example =
    random-total hmac hmac_laws 32 world live-IsValid (omega arith) (omega arith) (omega arith)

abbrev key : NewKey
key = record {
  alg = dsa ml_dsa_65;
  public_key = replicate 32 9;
  secret_key = replicate 32 9;
  seed = replicate 32 9;
}

abbrev name65 : Value
name65 = text (codes "ML-DSA-65")

generates_key : (generate_keypair suite name65 world).0 ≡ value key
unfolding generate_keypair generate_for pct_dsa set_of kem_of dsa_of random generate_world generate
    output_loop update step reseed_required ◌>>=◌
generates_key = refl

generate_keypair-keypair_from_seed_example :
    (set_of name65 ≡ some key.alg)
    × ((r : Bytes) × (agrees suite key.alg (pair_of key) r ≡ true))
    × (keypair_from_seed suite name65 (u8 key.seed) world ≡ (value (pair_of key), world))
generate_keypair-keypair_from_seed_example =
    generate_keypair-keypair_from_seed suite hmac_laws name65 world world key generates_key

abbrev pub boot : Boot
boot = record {
  integrity_passes = true;
  casts_pass = true;
  device = replicate 48 1 ∷ replicate 32 2 ∷ [];
}

abbrev loaded_module : Module
loaded_module = load suite boot

load-Reaches-IsSound_example :
    IsSound (call (serve suite (ask_generate name65)) (load suite boot)).1
load-Reaches-IsSound_example = load-Reaches-IsSound suite hmac_laws boot _ (
    then_step (load suite boot) (load suite boot) _ (stay (load suite boot))
      (served (ask_generate name65) (load suite boot)))

abbrev failed_module : Module
failed_module = record {
  state = error_state;
  reason = integrity_failed;
  services = false;
  world = record world { drbg = record { keys = none; counter = 0 } };
}

error_state_is_final_example :
    (failed_module ≡ failed_module)
    × ((r : Request)
        → (call (serve suite r) failed_module).0
          ≡ refused (wrong_state error_state integrity_failed))
error_state_is_final_example =
    error_state_is_final suite failed_module failed_module refl (stay failed_module)
