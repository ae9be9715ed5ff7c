-- ===== src/Tests/Limiter.antt =====
-- The limiter at work.
use chainpoint_core.Prelude.{
  ◌≤◌, pos, Str, str, true, false, lookup, some, List, [], ◌∷◌, insert, lookup_or, has_key, str_eq,
  ◌≡◌, refl, arith,
}
use chainpoint_core.Types.{AnchorState, TxValidation}
use chainpoint_core.TxKind.{btc_a, kind_of}
use chainpoint_core.Util.Tx.{public_key_hex, decode_tx_and_verify_sig}
use chainpoint_core.TxRateLimiter.{
  new_tx_validation, new_rate, rate_limit_update, is_habitual_violator, get_validation_record,
  update_accept_tx, is_validator, get_pub_key_hex,
}
use chainpoint_core.TxRateLimiter.Bucket.{IsLimit, rate_limit_update_capped}
use chainpoint_core.TxRateLimiter.Burst.{btca_burst, btca_count, validate_frame}
use chainpoint_core.TxRateLimiter.Validate.{validate, validate_tx, validate_kind, validate_btc_a}
use chainpoint_core.TxRateLimiter.Unlimited.{
  IsUnlimited, IsUnlimited-missing, missing_record-IsUnlimited,
}
use chainpoint_core.TxRateLimiter.Steps.{NotValidator, btca_rate}
use chainpoint_core.Tests.Floats.{toy_floats, toy_laws}
use chainpoint_core.Tests.Fixtures.{toy_externals, toy_state, toy_key, toy_tx}

abbrev toy_hex : Str
toy_hex = public_key_hex toy_key

-- The record of a core whose two tokens for BTC-A transactions are there.
abbrev full_record : TxValidation
full_record = record new_tx_validation {
  btca_allowed_rate = record (new_rate (pos 2) (pos 60)) { bucket = 0x3f800001 };
}

abbrev limited_state : AnchorState
limited_state = record toy_state { tx_validation = insert toy_hex full_record [] }

abbrev three_anchors : List Str
three_anchors = str "BTC-A" ∷ str "BTC-A" ∷ str "BTC-A" ∷ []

limited_state-NotValidator : NotValidator toy_hex limited_state
unfolding is_validator
limited_state-NotValidator id e = refl

btca_rate-IsLimit : IsLimit btca_rate full_record.btca_allowed_rate
unfolding new_tx_validation
btca_rate-IsLimit = record {
  allowed = refl;
  small = omega arith;
  period = λ e. cc;
  period_int64 = omega arith;
  number = omega arith;
}

limited_found : lookup toy_hex limited_state.tx_validation ≡ some full_record
unfolding public_key_hex lookup insert str_eq
limited_found = refl

btca_burst_example : btca_count toy_floats toy_externals toy_hex three_anchors limited_state ≤ 2
btca_burst_example =
    btca_burst toy_floats toy_laws toy_externals toy_hex three_anchors limited_state full_record
      limited_state-NotValidator limited_found btca_rate-IsLimit

rate_limit_update_capped_example :
    toy_floats.lt
      (toy_floats.of_int64 (pos 2))
      (rate_limit_update toy_floats (pos 500) (new_rate (pos 2) (pos 60))).bucket
    ≡ false
rate_limit_update_capped_example =
    rate_limit_update_capped toy_floats toy_laws (pos 500) (new_rate (pos 2) (pos 60))

toy_state-IsUnlimited : IsUnlimited toy_hex toy_state
unfolding lookup str_eq
toy_state-IsUnlimited = IsUnlimited-missing toy_hex toy_state refl

toy_key_known : lookup (str "c") toy_state.core_keys ≡ some toy_key
unfolding lookup str_eq
toy_key_known = refl

btc_a_kind : kind_of (toy_tx (str "BTC-A")).tx_type ≡ btc_a
unfolding kind_of str_eq
btc_a_kind = refl

missing_record-IsUnlimited_example :
    let o = validate_tx toy_floats toy_externals toy_state (toy_tx (str "BTC-A")) in
    (o.validated ≡ true) × IsUnlimited toy_hex o.after
missing_record-IsUnlimited_example =
    missing_record-IsUnlimited toy_floats toy_laws toy_externals toy_state (toy_tx (str "BTC-A"))
      toy_key toy_key_known btc_a_kind toy_state-IsUnlimited

validate_frame_example :
    (validate toy_floats toy_externals (str "BTC-A") limited_state).after ≡ record limited_state {
      tx_validation =
          (validate toy_floats toy_externals (str "BTC-A") limited_state).after.tx_validation;
    }
validate_frame_example = validate_frame toy_floats toy_externals (str "BTC-A") limited_state

-- The bound of two is reached.
btca_count_two : btca_count toy_floats toy_externals toy_hex three_anchors limited_state ≡ 2
unfolding btca_count validate validate_tx kind_of str_eq decode_tx_and_verify_sig lookup has_key
    get_pub_key_hex public_key_hex validate_kind validate_btc_a is_habitual_violator
    rate_limit_update get_validation_record lookup_or insert update_accept_tx is_validator
btca_count_two = refl
