-- ===== src/TxRateLimiter/Validate.antt =====
-- `Validate` of txratelimiter/validation.go.
use chainpoint_core.Prelude.{
  ℤ, pos, Str, str, lookup, insert, has_key, Bool, true, false, not, ◌&&◌, ◌||◌, Option, none, some,
  str_eq, leb_ℤ, eqb_ℤ, inc64, if◌then◌else◌,
}
use chainpoint_core.Types.{TxValidation, Tx, AnchorState, LnIdentity}
use chainpoint_core.FloatOps.{FloatOps}
use chainpoint_core.Externals.{Externals}
use chainpoint_core.Strconv.{NumError, parse_int}
use chainpoint_core.TxKind.{TxKind, val, cal, btc_e, btc_a, btc_c, fee, jwk, kind_of}
use chainpoint_core.Util.Tx.{Error, undeclared_core, json_error, decode_tx_and_verify_sig}
use chainpoint_core.TxRateLimiter.{
  rate_limit_update, is_habitual_violator, update_accept_tx, is_validator, get_validation_record,
}

-- What one case of the switch leaves in its variables: the record, `validated` and `err`.
pub record Verdict : Type 0 where
  pub entry : TxValidation
  pub validated : Bool
  pub err : Option Error

-- The result of the handler: the new state, the transaction, `validated` and the error.
pub record Outcome : Type 0 where
  pub after : AnchorState
  pub tx : Tx
  pub validated : Bool
  pub err : Option Error

-- `lnUri == lnID`
abbrev pub same_identity : LnIdentity → LnIdentity → Bool
same_identity a b = str_eq a.peer b.peer && eqb_ℤ a.required_chan_amt b.required_chan_amt

module _ (fl : FloatOps) where
  -- case "CAL"
  unfoldable pub validate_cal : ℤ → TxValidation → Verdict
  validate_cal height r =
      let limit = rate_limit_update fl height r.cal_allowed_rate in
      let seen = inc64 r.cal_validation_success in
      record {
        entry =
            if is_habitual_violator fl limit
            then record r {
              cal_validation_success = seen;
              last_cal_tx_height = height;
              cal_allowed_rate = limit;
              cal_validation_failures = inc64 r.cal_validation_failures;
            }
            else record r {
              cal_validation_success = inc64 seen;
              last_cal_tx_height = height;
              cal_allowed_rate = update_accept_tx fl limit;
            };
        validated = true;
        err = none;
      }

  -- case "BTC-A"
  unfoldable pub validate_btc_a : ℤ → Bool → TxValidation → Verdict
  validate_btc_a height is_val r =
      let limit = rate_limit_update fl height r.btca_allowed_rate in
      let pass = not (is_habitual_violator fl limit) || is_val in
      record {
        entry =
            if pass
            then record r {
              btca_allowed_rate = update_accept_tx fl limit;
              last_btca_tx_height = height;
            }
            else record r { btca_allowed_rate = limit };
        validated = pass;
        err = none;
      }

  -- case "BTC-C"
  unfoldable pub validate_btc_c : ℤ → Bool → TxValidation → Verdict
  validate_btc_c height is_val r =
      let limit = rate_limit_update fl height r.btcc_allowed_rate in
      record {
        entry =
            if not (is_habitual_violator fl limit || is_val)
            then record r {
              btcc_allowed_rate = update_accept_tx fl limit;
              last_btcc_tx_height = height;
            }
            else record r { btcc_allowed_rate = limit };
        validated = true;
        err = none;
      }

  -- The fee of a FEE transaction is a number and at least 50.
  abbrev pub fee_is_good : ℤ × Option NumError → Bool
  fee_is_good (i, some e) = false
  fee_is_good (i, none) = leb_ℤ (pos 50) i

  -- case "FEE"
  unfoldable pub validate_fee : ℤ → Str → TxValidation → Verdict
  validate_fee height tx_data r =
      let limit = rate_limit_update fl height r.fee_allowed_rate in
      let pass = not (is_habitual_violator fl limit) && fee_is_good (parse_int tx_data) in
      record {
        entry =
            if pass
            then record r {
              fee_allowed_rate = update_accept_tx fl limit;
              last_fee_tx_height = height;
            }
            else record r { fee_allowed_rate = limit };
        validated = pass;
        err = none;
      }

  abbrev count_change : LnIdentity → LnIdentity × Bool → TxValidation → TxValidation
  count_change ln_uri (ln_id, failed) r =
      if same_identity ln_uri ln_id
      then r
      else record r { jwk_submissions = inc64 r.jwk_submissions }

  -- case "JWK": for a core whose lightning identity is known, a change of it is counted.
  unfoldable pub validate_jwk : ℤ → Option LnIdentity → LnIdentity × Bool → TxValidation → Verdict
  validate_jwk height none decoded r = record {
    entry = record r { last_jwk_tx_height = height };
    validated = true;
    err = none;
  }
  validate_jwk height (some ln_uri) decoded r = record {
    entry = record (count_change ln_uri decoded r) { last_jwk_tx_height = height };
    validated = true;
    err = json_error decoded.1;
  }

  module _ (ext : Externals) where
    -- The switch on the type of the transaction.
    unfoldable pub validate_kind : TxKind → Tx → AnchorState → TxValidation → Verdict
    validate_kind cal tx state r = validate_cal state.height r
    validate_kind btc_a tx state r = validate_btc_a state.height (is_validator tx.core_id state) r
    validate_kind btc_c tx state r = validate_btc_c state.height (is_validator tx.core_id state) r
    validate_kind fee tx state r = validate_fee state.height tx.tx_data r
    validate_kind jwk tx state r =
        validate_jwk state.height (lookup tx.core_id state.ln_uris)
          (ext.ln_identity_of_json tx.meta) r
    validate_kind val tx state r = record { entry = r; validated = true; err = none }
    validate_kind btc_e tx state r = record { entry = r; validated = true; err = none }
    validate_kind _ tx state r = record { entry = r; validated = false; err = none }

    abbrev pub store_verdict : Str → AnchorState → Verdict → AnchorState
    store_verdict hex state v = record state {
      tx_validation = insert hex v.entry state.tx_validation;
    }

    abbrev pub finish : Str → AnchorState → Tx → Verdict → Outcome
    finish hex state tx v = record {
      after = store_verdict hex state v;
      tx = tx;
      validated = v.validated;
      err = v.err;
    }

    -- The part after the decoding. A core whose key is unknown may only declare it.
    unfoldable pub validate_tx : AnchorState → Tx → Outcome
    validate_tx state tx =
        let (hex, r, e) = get_validation_record tx.core_id state in
        if has_key tx.core_id state.core_keys
        then finish hex state tx (validate_kind (kind_of tx.tx_type) tx state r)
        else if str_eq tx.tx_type (str "JWK")
        then record { after = state; tx = tx; validated = true; err = none }
        else record { after = state; tx = tx; validated = false; err = some undeclared_core }

    abbrev pub after_decoding : AnchorState → Tx × Option Error → Outcome
    after_decoding state (tx, some e) = record {
      after = state;
      tx = tx;
      validated = false;
      err = some e;
    }
    after_decoding state (tx, none) = validate_tx state tx

    -- Validate
    unfoldable pub validate : Str → AnchorState → Outcome
    validate incoming state =
        after_decoding state (decode_tx_and_verify_sig ext incoming state.core_keys)
