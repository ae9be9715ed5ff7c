-- ===== src/TxRateLimiter.antt =====
-- txratelimiter/validation.go: a token bucket for each kind of transaction and each core, and the
-- validation of an incoming transaction. Records are kept under the hex of a core's public key.
pub mod Validate
pub mod Bucket
pub mod Steps
pub mod Burst
pub mod Unlimited
use chainpoint_core.Prelude.{
  ℤ, pos, Str, Dict, lookup, insert, lookup_or, Bool, false, ◌||◌, Option, none, some, List, [],
  ◌∷◌, str_eq, ltb_ℤ, sub64, inc64, if◌then◌else◌,
}
use chainpoint_core.Types.{RateLimit, TxValidation, AnchorState, PublicKey, Validator}
use chainpoint_core.FloatOps.{FloatOps, float_zero, float_one}
use chainpoint_core.Util.Tx.{Error, no_key, public_key_hex}

abbrev pub new_rate : ℤ → ℤ → RateLimit
new_rate allowed blocks = record {
  allowed_rate = allowed;
  per_blocks = blocks;
  last_check = pos 0;
  bucket = float_zero;
}

-- NewTxValidation
unfoldable pub new_tx_validation : TxValidation
new_tx_validation = record {
  last_jwk_tx_height = pos 0;
  jwk_allowed_rate = new_rate (pos 6) (pos 1440);
  jwk_submissions = pos 0;
  last_cal_tx_height = pos 0;
  cal_allowed_rate = new_rate (pos 80) (pos 60);
  cal_validation_success = pos 0;
  cal_validation_failures = pos 0;
  last_btca_tx_height = pos 0;
  confirmed_anchors = pos 0;
  failed_anchors = pos 0;
  btca_allowed_rate = new_rate (pos 2) (pos 60);
  last_btcc_tx_height = pos 0;
  btcc_allowed_rate = new_rate (pos 1) (pos 60);
  last_nist_tx_height = pos 0;
  nist_allowed_rate = new_rate (pos 80) (pos 60);
  last_fee_tx_height = pos 0;
  fee_allowed_rate = new_rate (pos 4) (pos 60);
  fee_validation_failures = pos 0;
  un_auth_val_submissions = pos 0;
}

-- The zero value of the record type, which a read of a missing key of a map gives.
abbrev pub zero_rate : RateLimit
zero_rate = new_rate (pos 0) (pos 0)

unfoldable pub zero_tx_validation : TxValidation
zero_tx_validation = record {
  last_jwk_tx_height = pos 0;
  jwk_allowed_rate = zero_rate;
  jwk_submissions = pos 0;
  last_cal_tx_height = pos 0;
  cal_allowed_rate = zero_rate;
  cal_validation_success = pos 0;
  cal_validation_failures = pos 0;
  last_btca_tx_height = pos 0;
  confirmed_anchors = pos 0;
  failed_anchors = pos 0;
  btca_allowed_rate = zero_rate;
  last_btcc_tx_height = pos 0;
  btcc_allowed_rate = zero_rate;
  last_nist_tx_height = pos 0;
  nist_allowed_rate = zero_rate;
  last_fee_tx_height = pos 0;
  fee_allowed_rate = zero_rate;
  fee_validation_failures = pos 0;
  un_auth_val_submissions = pos 0;
}

module _ (fl : FloatOps) where
  open fl use {of_int64, add, sub, mul, div, lt}

  -- RateLimitUpdate
  unfoldable pub rate_limit_update : ℤ → RateLimit → RateLimit
  rate_limit_update curr_height limit =
      let delta = sub64 curr_height limit.last_check in
      let bucket' =
        add limit.bucket
          (mul (of_int64 delta) (div (of_int64 limit.allowed_rate) (of_int64 limit.per_blocks))) in
      record limit {
        last_check = curr_height;
        bucket =
            if lt (of_int64 limit.allowed_rate) bucket'
            then of_int64 limit.allowed_rate
            else bucket';
      }

  -- IsHabitualViolator
  unfoldable pub is_habitual_violator : RateLimit → Bool
  is_habitual_violator limit = lt limit.bucket float_one

  -- UpdateAcceptTx
  unfoldable pub update_accept_tx : RateLimit → RateLimit
  update_accept_tx limit = record limit { bucket = sub limit.bucket float_one }

-- GetPubKeyHex
unfoldable pub get_pub_key_hex : Str → AnchorState → Str
get_pub_key_hex core_id state = elim (lookup core_id state.core_keys) [
  | none ↦ []
  | some key ↦ public_key_hex key
]

-- The body of GetLastNSubmitters for one core; each later test overwrites the height.
abbrev pub newer : ℤ → Str → ℤ → Dict ℤ → Dict ℤ
newer limit id h list = if ltb_ℤ limit h then insert id h list else list

abbrev pub submissions : ℤ → Str → Option TxValidation → Dict ℤ → Dict ℤ
submissions limit id none list = list
submissions limit id (some v) list = newer limit id v.last_btcc_tx_height (
    newer limit id v.last_btca_tx_height
      (newer limit id v.last_fee_tx_height (newer limit id v.last_cal_tx_height list)))

last_submitters_from : ℤ → AnchorState → Dict PublicKey → Dict ℤ → Dict ℤ
last_submitters_from n state [] core_list = core_list
last_submitters_from n state ((id, key) ∷ rest) core_list = last_submitters_from n state rest (
    submissions (sub64 state.height n) id (lookup (get_pub_key_hex id state) state.tx_validation)
      core_list)

-- GetLastNSubmitters
unfoldable pub get_last_n_submitters : ℤ → AnchorState → Dict ℤ
unfolding last_submitters_from get_pub_key_hex
get_last_n_submitters n state = last_submitters_from n state state.core_keys []

-- GetValidationRecord; the record of `NewTxValidation` for a missing key is overwritten at once.
unfoldable pub get_validation_record : Str → AnchorState → Str × TxValidation × Option Error
get_validation_record core_id state =
    let pub_key_hex = get_pub_key_hex core_id state in
    if str_eq pub_key_hex []
    then ([], new_tx_validation, some no_key)
    else (pub_key_hex, lookup_or zero_tx_validation pub_key_hex state.tx_validation, none)

-- SetValidationRecord
unfoldable pub set_validation_record : Str → TxValidation → AnchorState → AnchorState × Option Error
set_validation_record core_id validation_record state =
    let pub_key_hex = get_pub_key_hex core_id state in
    if str_eq pub_key_hex [] then (state, some no_key) else (
      record state { tx_validation = insert pub_key_hex validation_record state.tx_validation },
      none,
    )

abbrev pub on_record :
    Str
    → (TxValidation → TxValidation)
    → AnchorState
    → Str × TxValidation × Option Error
    → AnchorState × Option Error
on_record core_id change state (hex, validation_record, some e) = (state, some e)
on_record core_id change state (hex, validation_record, none) =
    set_validation_record core_id (change validation_record) state

-- IncrementSuccessAnchor
unfoldable pub increment_success_anchor : Str → AnchorState → AnchorState × Option Error
increment_success_anchor core_id state =
    on_record core_id (λ v. record v { confirmed_anchors = inc64 v.confirmed_anchors }) state
      (get_validation_record core_id state)

-- IncrementFailedAnchor
unfoldable pub increment_failed_anchor : Str → AnchorState → AnchorState × Option Error
increment_failed_anchor core_id state =
    on_record core_id (λ v. record v { failed_anchors = inc64 v.failed_anchors }) state
      (get_validation_record core_id state)

abbrev jwk_submissions_of : Str × TxValidation × Option Error → ℤ × Option Error
jwk_submissions_of (hex, v, some e) = (pos 0, some e)
jwk_submissions_of (hex, v, none) = (v.jwk_submissions, none)

-- GetJWKChanges
unfoldable pub get_jwk_changes : Str → AnchorState → ℤ × Option Error
get_jwk_changes core_id state = jwk_submissions_of (get_validation_record core_id state)

unfoldable pub any_address : Str → List Validator → Bool
any_address id [] = false
any_address id (v ∷ vs) = str_eq v.address id || any_address id vs

-- IsValidator
unfoldable pub is_validator : Str → AnchorState → Bool
unfolding any_address
is_validator id state = any_address id state.validators
