-- ===== src/Fips/Machine/Laws.antt =====
-- What the states of the module of src/fips/index.js promise.
use kxco_post_quantum.Prelude.{
  ◌≡◌, refl, sym, ◌∙◌, Bool, true, false, Bool-cases, inl, inr, List, Option, none, some, Bytes,
  arith, Result, ok, err,
}
use mathlib.Core.Path.{subst}
use kxco_post_quantum.Fips.Entropy.{get_entropy}
use kxco_post_quantum.Fips.Drbg.{Drbg, DrbgError, instantiate, uninstantiate}
use kxco_post_quantum.Fips.Drbg.Invariant.{HmacLaws, instantiate-IsValid}
use kxco_post_quantum.Fips.Services.{World, Outcome, value, throw, fatal, usage, Algorithms}
use kxco_post_quantum.Fips.Services.Calls.{
  destroy, start, or_fatal, with_drbg, personalization, instantiate_from, run_casts,
}
use kxco_post_quantum.Fips.Services.Keeps.{
  IsLive, Keeps, bind-Keeps, generate_keypair-Keeps, keypair_from_seed-Keeps, encapsulate-Keeps,
  decapsulate-Keeps, sign-Keeps, verify-Keeps,
}
use kxco_post_quantum.Fips.Machine.{
  State, self_test_state, operational, error_state, Reason, Module, Request, ask_generate,
  ask_from_seed, ask_encapsulate, ask_decapsulate, ask_sign, ask_verify, refused, enter_error,
  settle, call, call_in, self_test_in, serve, Boot, load, self_test, Step, served, tested_again,
  Reaches, stay, then_step, integrity_failed, started, loaded, tested, wrong_state,
}

-- What a loaded module is in each state: operational with the services there and the generator
-- live, or in error with the services gone and the generator wiped. It is never left untested.
abbrev pub IsSoundIn : State → Bool → Drbg → Type 0
IsSoundIn operational services d = (services ≡ true) × IsLive d
IsSoundIn error_state services d = (services ≡ false) × (d.keys ≡ none)
IsSoundIn self_test_state services d = true ≡ false

abbrev pub IsSound : Module → Type 0
IsSound m = IsSoundIn m.state m.services m.world.drbg

wipes : (w : World) → (destroy w).drbg.keys ≡ none
unfolding destroy uninstantiate
wipes w = refl

-- Entering the error state from any module whose services, where it has none, left no keys.
enter_error-IsSound :
    (r : Reason) (m : Module)
    → (m.services ≡ false → m.world.drbg.keys ≡ none)
    → IsSound (enter_error r m)
unfolding enter_error
enter_error-IsSound r m h = elim (Bool-cases m.services) [
  | inl e ↦ (refl, rw e (wipes m.world))
  | inr e ↦ (refl, rw e (h e))
]

settle-IsSound {ℓ} :
    {A : Type ℓ} (o : Outcome A) (m : Module)
    → m.state ≡ operational
    → m.services ≡ true
    → IsLive m.world.drbg
    → IsSound (settle o m).1
unfolding settle
settle-IsSound (value a) m e there live = rw e (there, live)
settle-IsSound (throw (usage u)) m e there live = rw e (there, live)
settle-IsSound (throw (fatal f)) m e there live = enter_error-IsSound _ m λ gone. cc

module _ (a : Algorithms) (laws : HmacLaws a.hmac512) where
  serve-Keeps : (r : Request) → Keeps (serve a r)
  unfolding serve
  serve-Keeps (ask_generate alg) = bind-Keeps _ _ (generate_keypair-Keeps a laws _) λ x. λ w h. h
  serve-Keeps (ask_from_seed alg seed) =
      bind-Keeps _ _ (keypair_from_seed-Keeps a laws _ _) λ x. λ w h. h
  serve-Keeps (ask_encapsulate alg pk) = bind-Keeps _ _ (encapsulate-Keeps a laws _ _) λ x. λ w h. h
  serve-Keeps (ask_decapsulate alg ct sk) =
      bind-Keeps _ _ (decapsulate-Keeps a laws _ _ _) λ x. λ w h. h
  serve-Keeps (ask_sign alg sk msg opts) = bind-Keeps _ _ (sign-Keeps a laws _ _ _ _) λ x. λ w h. h
  serve-Keeps (ask_verify alg pk msg sig opts) =
      bind-Keeps _ _ (verify-Keeps a laws _ _ _ _ _) λ x. λ w h. h

  call_in-IsSound :
      (s : State) (r : Request) (m : Module)
      → m.state ≡ s
      → IsSoundIn s m.services m.world.drbg
      → IsSound (call_in s (serve a r) m).1
  call_in-IsSound operational r m e (there, live) =
      settle-IsSound (serve a r m.world).0 _ e there (serve-Keeps r m.world live)
  call_in-IsSound error_state r m e sound = rw e sound
  call_in-IsSound self_test_state r m e sound = rw e sound

  call-IsSound : (r : Request) (m : Module) → IsSound m → IsSound (call (serve a r) m).1
  unfolding call
  call-IsSound r m sound = call_in-IsSound m.state r m refl sound

  run_casts-keeps :
      (c : Bool) (m : Module)
      → IsSound m
      → m.services ≡ true
      → IsSound (tested (run_casts c m.world).0 m).1
  unfolding run_casts
  run_casts-keeps true m sound there = sound
  run_casts-keeps false m sound there = enter_error-IsSound _ m λ gone. cc

  self_test_in-IsSound :
      (s : State) (i c : Bool) (m : Module)
      → m.state ≡ s
      → IsSoundIn s m.services m.world.drbg
      → IsSound (self_test_in s i c m).1
  self_test_in-IsSound operational true c m e sound = run_casts-keeps c m (rw e sound) sound.0
  self_test_in-IsSound operational false c m e sound =
      enter_error-IsSound integrity_failed m λ gone. absurd (clash sound.0 gone)
    where
      clash : m.services ≡ true → m.services ≡ false → ⊥
      clash p q = cc
  self_test_in-IsSound error_state i c m e sound = rw e sound
  self_test_in-IsSound self_test_state i c m e sound = rw e sound

  self_test-IsSound : (i c : Bool) (m : Module) → IsSound m → IsSound (self_test i c m).1
  unfolding self_test
  self_test-IsSound i c m sound = self_test_in-IsSound m.state i c m refl sound

  or_fatal-IsLive :
      (entropy salt personal : Bytes) (r : Result DrbgError Drbg) (d : Drbg)
      → instantiate a.hmac512 entropy salt personal ≡ r
      → or_fatal r ≡ value d
      → IsLive d
  or_fatal-IsLive entropy salt personal (ok d') d p h =
      let (valid, one) = instantiate-IsValid a.hmac512 laws entropy salt personal d' p in
      subst IsLive (same h) (valid, omega (arith, one))
    where
      same : ◌≡◌ {A = Outcome Drbg} (value d') (value d) → d' ≡ d
      same e = cc
  or_fatal-IsLive entropy salt personal (err e) d p h = cc

  instantiate_from-IsLive :
      (entropy salt : Option Bytes) (d : Drbg)
      → instantiate_from a entropy salt ≡ value d
      → IsLive d
  unfolding instantiate_from
  instantiate_from-IsLive (some entropy) (some salt) d h =
      or_fatal-IsLive entropy salt personalization _ d refl h
  instantiate_from-IsLive (some entropy) none d h = cc
  instantiate_from-IsLive none salt d h = cc

  started-IsSound :
      (o : Outcome Drbg) (device : List Bytes)
      → ((d : Drbg) → o ≡ value d → IsLive d)
      → IsSound (started (with_drbg o device).0 (with_drbg o device).1)
  started-IsSound (value d) device h = (refl, h d refl)
  started-IsSound (throw e) device h = enter_error-IsSound _ _ λ gone. refl

  start-IsSound :
      (c : Bool) (device : List Bytes) → IsSound (started (start a c device).0 (start a c device).1)
  unfolding start
  start-IsSound true device =
      started-IsSound _ _ (instantiate_from-IsLive (get_entropy 48 device).0 _)
  start-IsSound false device = enter_error-IsSound _ _ λ gone. refl

  loaded-IsSound :
      (i : Bool) (o : Outcome (Unit {0}) × World) (device : List Bytes)
      → IsSound (started o.0 o.1)
      → IsSound (loaded i o device)
  loaded-IsSound true (o, w) device h = h
  loaded-IsSound false (o, w) device h = enter_error-IsSound _ _ λ gone. refl

  load-IsSound : (b : Boot) → IsSound (load a b)
  unfolding load
  load-IsSound b =
      loaded-IsSound b.integrity_passes _ b.device (start-IsSound b.casts_pass b.device)

  Step-IsSound : (m m' : Module) → Step a m m' → IsSound m → IsSound m'
  Step-IsSound m _ (served r _) sound = call-IsSound r m sound
  Step-IsSound m _ (tested_again i c _) sound = self_test-IsSound i c m sound

  Reaches-IsSound : (m m' : Module) → Reaches a m m' → IsSound m → IsSound m'
  Reaches-IsSound m _ (stay _) sound = sound
  Reaches-IsSound m m'' (then_step _ m' _ before last) sound =
      Step-IsSound m' m'' last (Reaches-IsSound m m' before sound)

  -- If HMAC-SHA-512 gives 64 bytes: however the import goes and whatever calls of the services and of the self-test follow, in any
  -- order and with any arguments and outcomes, the module is either operational, with its services
  -- there and the generator instantiated with keys of 64 bytes and a counter between 1 and one past
  -- the reseed interval, or in its error state, with the services gone and the generator's keys
  -- wiped.
  pub load-Reaches-IsSound : (b : Boot) (m : Module) → Reaches a (load a b) m → IsSound m
  load-Reaches-IsSound b m path = Reaches-IsSound (load a b) m path (load-IsSound b)

stays : (a : Algorithms) (m m' : Module) → Step a m m' → m.state ≡ error_state → m' ≡ m
unfolding call self_test
stays a m _ (served r _) e = rw e refl
stays a m _ (tested_again i c _) e = rw e refl

-- A module in its error state never leaves it: no call and no self-test changes anything, and every
-- service answers that it is not offered.
pub error_state_is_final :
    (a : Algorithms) (m m' : Module)
    → m.state ≡ error_state
    → Reaches a m m'
    → (m' ≡ m)
      × ((r : Request) → (call (serve a r) m').0 ≡ refused (wrong_state error_state m.reason))
unfolding call
error_state_is_final a m _ e (stay _) = (refl, λ r. rw e refl)
error_state_is_final a m m'' e (then_step _ m' _ before last) =
    let (same, refuses) = error_state_is_final a m m' e before in
    let again = stays a m' m'' last (subst (λ (x : Module). x.state ≡ error_state) (sym same) e) in
    (
      again ∙ same,
      subst
          (λ (x : Module).
            (r : Request) → (call (serve a r) x).0 ≡ refused (wrong_state error_state m.reason))
          (sym again) refuses,
    )
