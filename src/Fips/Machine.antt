-- ===== src/Fips/Machine.antt =====
-- src/fips/index.js: the states of the module, and the calls that pass through `call`. The
-- services are those of Fips/Services/Calls. Whether the integrity test and the known answers of its
-- primitives pass is an argument.
pub mod Laws
use kxco_post_quantum.Prelude.{
  Bool, true, false, ◌&&◌, List, [], ◌∷◌, Option, none, some, if◌then◌else◌, Bytes,
}
use kxco_post_quantum.Value.{Value}
use kxco_post_quantum.Context.{Options}
use kxco_post_quantum.Fips.Drbg.{fresh}
use kxco_post_quantum.Fips.Services.{
  World, M, Outcome, value, throw, Fatal, self_test_failed, FipsError, fatal, usage, Usage,
  Algorithms, Encapsulated, KeyPair, ◌>>=◌, return,
}
use kxco_post_quantum.Fips.Services.Calls.{
  NewKey, generate_keypair, keypair_from_seed, encapsulate, decapsulate, sign, verify, run_casts,
  destroy, start,
}

pub data State : Type 0 where
  self_test_state operational error_state : State

-- `reason`: null, or why the module is in its error state.
pub data Reason : Type 0 where
  no_reason integrity_failed : Reason
  failed : FipsError → Reason

-- The variables of the file. `services` tells whether the table is there; `world` is what the
-- closures of the table hold.
pub record Module : Type 0 where
  pub state : State
  pub reason : Reason
  pub services : Bool
  pub world : World

pub data CallError : Type 0 where
  wrong_state : State → Reason → CallError
  entered_error : Reason → CallError
  thrown : Usage → CallError

pub data Answer {ℓ} (A : Type ℓ) : Type ℓ where
  returned : A → Answer A
  refused : CallError → Answer A

-- `enterError`
unfoldable pub enter_error : Reason → Module → Module
enter_error r m = record {
  state = error_state;
  reason = r;
  services = false;
  world = if m.services then destroy m.world else m.world;
}

-- What `call` does with the outcome of the service.
unfoldable pub settle {ℓ} : {A : Type ℓ} → Outcome A → Module → Answer A × Module
settle (value a) m = (returned a, m)
settle (throw (usage e)) m = (refused (thrown e), m)
settle (throw (fatal e)) m =
    (refused (entered_error (failed (fatal e))), enter_error (failed (fatal e)) m)

abbrev pub run {ℓ} : {A : Type ℓ} → M A → Module → Answer A × Module
run service m = let (o, w) = service m.world in settle o (record m { world = w })

abbrev pub call_in {ℓ} : {A : Type ℓ} → State → M A → Module → Answer A × Module
call_in operational service m = run service m
call_in s service m = (refused (wrong_state s m.reason), m)

-- `call(name, args)`, the arguments applied.
unfoldable pub call {ℓ} : {A : Type ℓ} → M A → Module → Answer A × Module
call service m = call_in m.state service m

-- The exported functions that pass through `call`.
pub data Request : Type 0 where
  ask_generate : (alg : Value) → Request
  ask_from_seed : (alg seed : Value) → Request
  ask_encapsulate : (alg public_key : Value) → Request
  ask_decapsulate : (alg cipher_text secret_key : Value) → Request
  ask_sign : (alg secret_key message : Value) → Options → Request
  ask_verify : (alg public_key message signature : Value) → Options → Request

pub data Reply : Type 0 where
  new_key : NewKey → Reply
  pair : KeyPair → Reply
  sealed : Encapsulated → Reply
  bytes : Bytes → Reply
  verdict : Bool → Reply

abbrev map_m {ℓ κ} : {A : Type ℓ} {B : Type κ} → (A → B) → M A → M B
map_m f m = m >>= λ a. return (f a)

unfoldable pub serve : Algorithms → Request → M Reply
serve a (ask_generate alg) = map_m new_key (generate_keypair a alg)
serve a (ask_from_seed alg seed) = map_m pair (keypair_from_seed a alg seed)
serve a (ask_encapsulate alg public_key) = map_m sealed (encapsulate a alg public_key)
serve a (ask_decapsulate alg ct secret_key) = map_m bytes (decapsulate a alg ct secret_key)
serve a (ask_sign alg secret_key msg opts) = map_m bytes (sign a alg secret_key msg opts)
serve a (ask_verify alg public_key msg sig opts) =
    map_m verdict (verify a alg public_key msg sig opts)

-- What the import finds: the checks before the services are loaded, the algorithm self-tests,
-- and what the entropy device gives.
pub record Boot : Type 0 where
  pub integrity_passes : Bool
  pub casts_pass : Bool
  pub device : List Bytes

abbrev pub before_import : List Bytes → Module
before_import device = record {
  state = self_test_state;
  reason = no_reason;
  services = false;
  world = record { drbg = fresh; device = device };
}

abbrev pub started : Outcome (Unit {0}) → World → Module
started (value u) w = record { state = operational; reason = no_reason; services = true; world = w }
started (throw e) w = enter_error (failed e) (record (before_import []) { world = w })

abbrev pub loaded : Bool → Outcome (Unit {0}) × World → List Bytes → Module
loaded true (o, w) device = started o w
loaded false (o, w) device = enter_error integrity_failed (before_import device)

-- The `try` block that runs on import.
unfoldable pub load : Algorithms → Boot → Module
load a b = loaded b.integrity_passes (start a b.casts_pass b.device) b.device

abbrev pub tested : Outcome (Unit {0}) → Module → Answer (Unit {0}) × Module
tested (value u) m = (returned tt, m)
tested (throw e) m = (refused (entered_error (failed e)), enter_error (failed e) m)

abbrev pub retest : (integrity_passes casts_pass : Bool) → Module → Answer (Unit {0}) × Module
retest true casts_pass m = tested (run_casts casts_pass m.world).0 m
retest false casts_pass m =
    (refused (entered_error integrity_failed), enter_error integrity_failed m)

abbrev pub self_test_in :
    State → (integrity_passes casts_pass : Bool) → Module → Answer (Unit {0}) × Module
self_test_in operational integrity_passes casts_pass m = retest integrity_passes casts_pass m
self_test_in s integrity_passes casts_pass m = (refused (wrong_state s m.reason), m)

-- `selfTest`: any failure is fatal here.
unfoldable pub self_test :
    (integrity_passes casts_pass : Bool) → Module → Answer (Unit {0}) × Module
self_test integrity_passes casts_pass m = self_test_in m.state integrity_passes casts_pass m

-- One call of the module by its user, and any number of them.
pub data Step (a : Algorithms) : Module → Module → Type 0 where
  served : (r : Request) (m : Module) → Step a m (call (serve a r) m).1
  tested_again : (i c : Bool) (m : Module) → Step a m (self_test i c m).1

pub data Reaches (a : Algorithms) : Module → Module → Type 0 where
  stay : (m : Module) → Reaches a m m
  then_step : (m m' m'' : Module) → Reaches a m m' → Step a m' m'' → Reaches a m m''

-- `status`, without the constant texts, and without the version, which Fips/Import adds; `reason` is
-- left out where it is null.
pub record Status : Type 0 where
  pub state : State
  pub reason : Option Reason

abbrev reason_given : Reason → Option Reason
reason_given no_reason = none
reason_given r = some r

-- Offered in every state.
unfoldable pub status : Module → Status
status m = record { state = m.state; reason = reason_given m.reason }
