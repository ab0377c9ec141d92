-- ===== src/Fips/Import.antt =====
-- src/fips/index.js on import and in `selfTest`: the checks before the services, with the integrity
-- test run on the module's directory.
pub mod Laws
use kxco_post_quantum.Prelude.{
  Bool, true, false, ◌&&◌, List, [], ◌∷◌, Option, none, some, if◌then◌else◌, length, replicate,
  Bytes, codes, Result, ok, err,
}
use kxco_post_quantum.Value.{Value, u8}
use kxco_post_quantum.Json.{Json, null, object, get_member}
use kxco_post_quantum.Fips.SelfTest.{Vendored, Kat, run_integrity_casts, run_algorithm_casts}
use kxco_post_quantum.Fips.Files.{Entries}
use kxco_post_quantum.Fips.Integrity.{Trust, integrity_test}
use kxco_post_quantum.Fips.Machine.{Module, Boot, Answer, load, self_test, Status, status}

-- What the checks find: whether the module's URL is that of a file, the module's directory and the
-- entropy device.
pub record Found : Type 0 where
  pub from_file : Bool
  pub module_directory : Entries
  pub device : List Bytes

abbrev pub returns {ε ℓ} : {E : Type ε} {A : Type ℓ} → Result E A → Bool
returns (ok a) = true
returns (err e) = false

abbrev pub non_null : Option Json → Option Json
non_null (some null) = none
non_null v = v

-- `manifest.version ?? null`
unfoldable pub version_member : Json → Option Json
version_member (object ms) = non_null (get_member (codes "version") ms)
version_member _ = none

abbrev pub version_of {ε} : {E : Type ε} → Result E Json → Option Json
version_of (ok manifest) = version_member manifest
version_of (err e) = none

-- `status`, less the constant texts.
pub record ModuleStatus : Type 0 where
  pub version : Option Json
  pub status : Status

-- `version` is a variable of its own, which only the import sets.
unfoldable pub module_status : Option Json → Module → ModuleStatus
module_status version m = record { version = version; status = status m }

-- `zeroize`, on the arrays that the caller holds: every `Uint8Array` is filled with zeros in place.
unfoldable pub zeroize : List Value → List Value
zeroize [] = []
zeroize (u8 bs ∷ arrays) = u8 (replicate (length bs) 0) ∷ zeroize arrays
zeroize (a ∷ arrays) = a ∷ zeroize arrays

module _ (t : Trust) (v : Vendored) (kat : Kat) where
  -- `version` after the import: it is set where the integrity test returns, whatever comes after.
  unfoldable pub import_version : Found → Option Json
  import_version i =
      if i.from_file && returns (run_integrity_casts v kat)
      then version_of (integrity_test t i.module_directory)
      else none

  -- `runIntegrityCasts(); integrityTest()`
  abbrev pub integrity_passes : Entries → Bool
  integrity_passes dir = returns (run_integrity_casts v kat) && returns (integrity_test t dir)

  unfoldable pub boot_of : Found → Boot
  boot_of i = record {
    integrity_passes = i.from_file && integrity_passes i.module_directory;
    casts_pass = returns (run_algorithm_casts v kat);
    device = i.device;
  }

  -- The `try` block that runs on import.
  unfoldable pub import_module : Found → Module
  import_module i = load v.algorithms (boot_of i)

  -- `selfTest`; the URL is not looked at again.
  unfoldable pub test_again : Entries → Module → Answer (Unit {0}) × Module
  test_again dir m = self_test (integrity_passes dir) (returns (run_algorithm_casts v kat)) m
