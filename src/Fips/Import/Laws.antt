-- ===== src/Fips/Import/Laws.antt =====
-- The module of src/fips/index.js offers its services only from a signed release.
use kxco_post_quantum.Prelude.{
  ◌≡◌, ◌⊎◌, refl, ap, Bool, true, false, ◌&&◌, inl, inr, List, [], none, Bytes, arith, Result, ok,
  err,
}
use kxco_post_quantum.Json.{Json}
use kxco_post_quantum.Fips.Services.{Algorithms, World, Outcome}
use kxco_post_quantum.Fips.Services.Calls.{start, run_casts, destroy}
use kxco_post_quantum.Fips.Drbg.{uninstantiate}
use kxco_post_quantum.Fips.Files.{Entries, files_in}
use kxco_post_quantum.Fips.Integrity.{Trust, IntegrityError, integrity_test}
use kxco_post_quantum.Fips.Integrity.Laws.{IsRelease, integrity_test-IsRelease}
use kxco_post_quantum.Fips.Machine.{
  State, operational, error_state, Module, Answer, returned, refused, load, loaded, enter_error,
  self_test, self_test_in, retest, tested, Reason, failed, integrity_failed, entered_error,
}
use kxco_post_quantum.Fips.SelfTest.{
  TestError, Vendored, Kat, run_integrity_casts, run_algorithm_casts,
}
use kxco_post_quantum.Fips.Import.{
  integrity_passes, Found, returns, boot_of, import_module, test_again,
}

returned_value : (r : Result IntegrityError Json) → returns r ≡ true → (v : Json) × (r ≡ ok v)
returned_value (ok v) h = (v, refl)
returned_value (err e) h = cc

both : (a b : Bool) → (a && b) ≡ true → (a ≡ true) × (b ≡ true)
both a b h = ground arith

not_operational : ◌≡◌ {A = State} error_state operational → ⊥
not_operational h = cc

loaded-operational :
    (b : Bool) (o : Outcome (Unit {0}) × World) (device : List Bytes)
    → (loaded b o device).state ≡ operational
    → b ≡ true
unfolding enter_error
loaded-operational true o device h = refl
loaded-operational false (o, w) device h = absurd (not_operational h)

release :
    (t : Trust) (dir : Entries)
    → returns (integrity_test t dir) ≡ true
    → (manifest : Json) × IsRelease t (files_in [] dir) manifest
release t dir h =
    let (manifest, e) = returned_value (integrity_test t dir) h in
    (manifest, integrity_test-IsRelease t dir manifest e)

casts_passed : (r : Result TestError (Unit {0})) → returns r ≡ true → r ≡ ok tt
casts_passed (ok u) h = refl
casts_passed (err e) h = cc

loaded-casts :
    (a : Algorithms) (b c : Bool) (device : List Bytes)
    → (loaded b (start a c device) device).state ≡ operational
    → c ≡ true
loaded-casts a b true device h = refl
loaded-casts a true false device h = absurd (not_operational (unfold start enter_error in h))
loaded-casts a false false device h = absurd (not_operational (unfold start enter_error in h))

-- Every self-test has passed, and the directory is a release.
abbrev pub IsTested : Trust → Vendored → Kat → Entries → Type 0
IsTested t v kat dir =
    (run_integrity_casts v kat ≡ ok tt)
    × (run_algorithm_casts v kat ≡ ok tt)
    × ((manifest : Json) × IsRelease t (files_in [] dir) manifest)

passes-IsTested :
    (t : Trust) (v : Vendored) (kat : Kat) (dir : Entries)
    → integrity_passes t v kat dir ≡ true
    → returns (run_algorithm_casts v kat) ≡ true
    → IsTested t v kat dir
passes-IsTested t v kat dir h casts =
    let (before, passed) =
      both (returns (run_integrity_casts v kat)) (returns (integrity_test t dir)) h in
    (casts_passed _ before, casts_passed _ casts, release t dir passed)

-- A module that is operational after its import was loaded from a file, every known-answer test has
-- passed, and its directory is a release: a manifest that verifies under the release key, every file
-- that it lists there with its digest, and every file that is there listed.
pub import_module-IsTested :
    (t : Trust) (v : Vendored) (kat : Kat) (i : Found)
    → (import_module t v kat i).state ≡ operational
    → (i.from_file ≡ true) × IsTested t v kat i.module_directory
import_module-IsTested t v kat i h =
    let b = i.from_file && integrity_passes t v kat i.module_directory in
    let c = returns (run_algorithm_casts v kat) in
    let checks = loaded-operational b (start v.algorithms c i.device) i.device (opened h) in
    let (from_file, passed) =
      both i.from_file (integrity_passes t v kat i.module_directory) checks in
    (
      from_file,
      passes-IsTested t v kat i.module_directory passed
          (loaded-casts v.algorithms b c i.device (opened h)),
    )
  where
    opened :
        (import_module t v kat i).state ≡ operational
        → (loaded
            (i.from_file && integrity_passes t v kat i.module_directory)
            (start v.algorithms (returns (run_algorithm_casts v kat)) i.device)
            i.device).state
          ≡ operational
    opened h = unfold import_module load boot_of in h

-- What `selfTest` leaves behind where a test fails: no services, and no keys in the generator.
abbrev pub HasFailed : Answer (Unit {0}) × Module → Type 0
HasFailed r =
    ((reason : Reason) × (r.0 ≡ refused (entered_error reason)))
    × (r.1.state ≡ error_state)
    × (r.1.services ≡ false)
    × (r.1.world.drbg.keys ≡ none)

entered :
    (reason : Reason) (m : Module)
    → m.services ≡ true
    → HasFailed (refused (entered_error reason), enter_error reason m)
unfolding enter_error destroy uninstantiate
entered reason m h = ((reason, refl), refl, refl, rw h refl)

tested-cases :
    (c : Bool) (m : Module)
    → m.services ≡ true
    → ((c ≡ true) × (tested (run_casts c m.world).0 m ≡ (returned tt, m)))
      ⊎ HasFailed (tested (run_casts c m.world).0 m)
unfolding run_casts
tested-cases true m h = inl (refl, refl)
tested-cases false m h = inr (entered (failed _) m h)

retest-cases :
    (b c : Bool) (m : Module)
    → m.services ≡ true
    → ((b ≡ true) × (c ≡ true) × (retest b c m ≡ (returned tt, m))) ⊎ HasFailed (retest b c m)
retest-cases true c m h = elim (tested-cases c m h) [
  | inl (casts, e) ↦ inl (refl, casts, e)
  | inr e ↦ inr e
]
retest-cases false c m h = inr (entered integrity_failed m h)

-- `selfTest` of an operational module that has its services either returns, leaves the module as it
-- was, and has found every known-answer test to pass and the directory to be a release; or it is refused,
-- and the module is in its error state without services and without keys in its generator.
pub test_again-cases :
    (t : Trust) (v : Vendored) (kat : Kat) (dir : Entries) (m : Module)
    → m.state ≡ operational
    → m.services ≡ true
    → ((test_again t v kat dir m ≡ (returned tt, m)) × IsTested t v kat dir)
      ⊎ HasFailed (test_again t v kat dir m)
unfolding test_again
test_again-cases t v kat dir m live h =
    let b = integrity_passes t v kat dir in
    let c = returns (run_algorithm_casts v kat) in
    rw (runs b c) (elim (retest-cases b c m h) [
      | inl (passes, casts, e) ↦ inl (e, passes-IsTested t v kat dir passes casts)
      | inr e ↦ inr e
    ])
  where
    runs : (b c : Bool) → self_test b c m ≡ retest b c m
    runs b c = unfold self_test in ap (λ s. self_test_in s b c m) live
