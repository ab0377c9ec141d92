-- ===== src/Backend.antt =====
-- src/backend.js: which implementation does the mathematics, and the refusal to run on another.
-- The description is what `backend()` returns, without the texts that are constant.
pub mod Laws
use kxco_post_quantum.Prelude.{
  Bool, true, false, not, ◌&&◌, ◌||◌, ltb, ◌==◌, List, [], ◌∷◌, Option, none, some, map,
  if◌then◌else◌, Text, codes, text_eq, Result, ok, err,
}
use kxco_post_quantum.Native.{Entry, Spec}
use kxco_post_quantum.Native.Calls.{Native, supports}
use kxco_post_quantum.Native.OperatorPin.{Pin, openssl, javascript}

-- Why the process is on the JavaScript backend.
pub data JsReason : Type 0 where
  pinned_by_operator not_provided : JsReason

pub data Backend : Type 0 where
  on_javascript : JsReason → Option Pin → Backend
  on_openssl : Option Pin → (parameter_sets : List Text) → Backend

pub data BackendError : Type 0 where
  unknown_kind : Text → BackendError
  wrong_backend : (required : Pin) → (actual : Backend) → BackendError
  missing_sets : (missing available : List Text) → BackendError

-- `pinned === 'javascript' ? ... : ...`
abbrev pub js_reason : Option Pin → JsReason
js_reason (some javascript) = pinned_by_operator
js_reason _ = not_provided

-- The order of `sort()` without a comparison: by UTF-16 code units. The names are distinct, so any
-- way of sorting gives the same list.
unfoldable pub text_leb : Text → Text → Bool
text_leb [] t = true
text_leb (c ∷ s) [] = false
text_leb (c ∷ s) (d ∷ t) = ltb c d || (c == d && text_leb s t)

unfoldable pub insert : Text → List Text → List Text
insert s [] = s ∷ []
insert s (t ∷ ts) = if text_leb s t then s ∷ t ∷ ts else t ∷ insert s ts

unfoldable pub sort : List Text → List Text
sort [] = []
sort (s ∷ ss) = insert s (sort ss)

-- `native.algorithms()`
unfoldable pub native_algorithms : Native → List Text
native_algorithms n = sort (map (λ (s : Spec). s.entry.name) n.supported)

unfoldable pub backend : Option Pin → Option Native → Backend
backend pinned none = on_javascript (js_reason pinned) pinned
backend pinned (some n) = on_openssl pinned (native_algorithms n)

unfoldable pub is_native : Option Native → Text → Bool
is_native none alg = false
is_native (some n) alg = supports n alg

-- `algorithms.filter((a) => !isNative(a))`
unfoldable pub missing_from : Option Native → List Text → List Text
missing_from n [] = []
missing_from n (a ∷ as') = if is_native n a then missing_from n as' else a ∷ missing_from n as'

-- The kind that the caller asks for, if it is one of the two.
unfoldable pub kind_of : Text → Option Pin
kind_of kind =
    if text_eq kind (codes "openssl")
    then some openssl
    else if text_eq kind (codes "javascript")
    then some javascript
    else none

abbrev pub available : Backend → List Text
available (on_javascript r p) = []
available (on_openssl p sets) = sets

-- `if (missing.length) throw ...`
abbrev pub refuse_missing : List Text → Backend → Result BackendError Backend
refuse_missing [] b = ok b
refuse_missing (a ∷ as') b = err (missing_sets (a ∷ as') (available b))

unfoldable pub require_kind :
    Pin → Backend → Option Native → List Text → Result BackendError Backend
require_kind javascript (on_javascript r p) n algorithms = ok (on_javascript r p)
require_kind openssl (on_openssl p sets) n algorithms =
    refuse_missing (missing_from n algorithms) (on_openssl p sets)
require_kind kind b n algorithms = err (wrong_backend kind b)

abbrev pub require_known :
    Text → Option Pin → Option Pin → Option Native → List Text → Result BackendError Backend
require_known kind none pinned n algorithms = err (unknown_kind kind)
require_known kind (some k) pinned n algorithms = require_kind k (backend pinned n) n algorithms

unfoldable pub require_backend :
    Option Pin → Option Native → Text → List Text → Result BackendError Backend
require_backend pinned n kind algorithms = require_known kind (kind_of kind) pinned n algorithms

unfoldable pub require_native_backend :
    Option Pin → Option Native → List Text → Result BackendError Backend
unfolding require_backend
require_native_backend pinned n algorithms = require_backend pinned n (codes "openssl") algorithms

-- `REQUIRE_NATIVE`, from the variable KXCO_PQ_REQUIRE_NATIVE; `none` where it is not set.
unfoldable pub require_native : Option Text → Bool
require_native none = false
require_native (some v) = text_eq v (codes "1") || text_eq v (codes "true")

abbrev pub discard : Result BackendError Backend → Result BackendError (Unit {0})
discard (ok b) = ok tt
discard (err e) = err e

-- The call that the import of the file ends with.
unfoldable pub on_import : Option Text → Option Pin → Option Native → Result BackendError (Unit {0})
unfolding require_native require_native_backend
on_import variable pinned n =
    if require_native variable then discard (require_native_backend pinned n []) else ok tt
