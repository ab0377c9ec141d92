-- ===== src/Webhook/Pq.antt =====
-- `pqSign` and `verifyPq` of src/webhook.js.
use kxco_post_quantum.Prelude.{
  Bool, false, not, ◌&&◌, ◌++◌, ◌==◌, if◌then◌else◌, Text, Bytes, codes, Result, ok, err, ◌>>=◌,
  length, drop,
}
use kxco_post_quantum.Value.{Value, u8, text}
use kxco_post_quantum.Context.{absent}
use kxco_post_quantum.Signature.{Setup, sign, verify}
use kxco_post_quantum.Webhook.Envelope.{WebhookError, signing_failed, envelope}
use kxco_post_quantum.Webhook.Hmac.{starts_with}

-- The two modules that src/webhook.js imports.
pub record PqModules : Type 0 where
  pub ml_dsa_65 : Setup
  pub ml_dsa_87 : Setup

-- `ML_DSA_65` and `ML_DSA_87`
pub record PqSet : Type 0 where
  pub prefix : Text
  pub setup : Setup

abbrev pub set_65 : PqModules → PqSet
set_65 m = record { prefix = codes "ml-dsa-65="; setup = m.ml_dsa_65 }

abbrev pub set_87 : PqModules → PqSet
set_87 m = record { prefix = codes "ml-dsa-87="; setup = m.ml_dsa_87 }

abbrev pub set_for_secret_key : PqModules → Bytes → PqSet
set_for_secret_key m secret_key = if length secret_key == 4896 then set_87 m else set_65 m

unfoldable pub pq_sign : PqModules → Bytes → Text → Value → Result WebhookError Text
pq_sign m secret_key timestamp raw_body = do
  env ← envelope timestamp raw_body
  let set = set_for_secret_key m secret_key
  elim (sign set.setup secret_key (u8 env) absent) [
    | ok sig ↦ ok (set.prefix ++ sig)
    | err e ↦ err signing_failed
  ]

-- `set.verify(publicKey, envelope(...), header)`; with no options `verify` does not throw.
unfoldable pub check_set : Setup → Bytes → Text → Value → Text → Result WebhookError Bool
check_set setup public_key timestamp raw_body hex = do
  env ← envelope timestamp raw_body
  ok (elim (verify setup public_key (u8 env) (text hex) absent) [ ok b ↦ b | err e ↦ false ])

unfoldable pub verify_pq : PqModules → Bytes → Text → Value → Text → Result WebhookError Bool
verify_pq m public_key timestamp raw_body sig_header =
    let is87 : Bool = length public_key == 2592 in
    let set : PqSet = if is87 then set_87 m else set_65 m in
    if not is87 && not (length public_key == 1952)
    then ok false
    else if starts_with set.prefix sig_header
    then check_set set.setup public_key timestamp raw_body (drop (length set.prefix) sig_header)
    else if is87
    then ok false
    else check_set set.setup public_key timestamp raw_body sig_header
