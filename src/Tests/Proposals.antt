-- ===== src/Tests/Proposals.antt =====
-- CheckTx at work on a proposal of a validator.
use chainpoint_core.Prelude.{
  add64, wrap64, ◌+ℤ◌, Str, str, str_eq, split, lookup, trim_prefix, Dict, true, false, [], ◌∷◌,
  ◌≡◌, none, refl, returns,
}
use chainpoint_core.Types.{Tx}
use chainpoint_core.Strconv.{parse_int}
use chainpoint_core.TxKind.{val}
use chainpoint_core.TxRateLimiter.{
  is_validator, get_validation_record, get_pub_key_hex, new_tx_validation,
}
use chainpoint_core.Abci.{App, ok}
use chainpoint_core.Abci.Identity.{ChannelQuery}
use chainpoint_core.Abci.Validators.{ValTx, validate_validator_tx}
use chainpoint_core.Abci.Check.{AnchorCheck, check_kind}
use chainpoint_core.Abci.Check.Promotion.{Promoted, check_kind_promotion}
use chainpoint_core.Tests.Fixtures.{toy_externals, toy_app, toy_state, toy_tx}

abbrev proposal : Str
proposal = str "x!k!5"

-- A node that is a validator and has the proposal in its configuration.
abbrev voting_app : App (Dict Str)
voting_app = record toy_app {
  state = record toy_state { validators = record { address = str "c" } ∷ [] };
  pending_validator = proposal;
}

abbrev proposal_tx : Tx
proposal_tx = record (toy_tx (str "VAL")) { tx_data = proposal }

abbrev no_check : AnchorCheck
no_check btca = false

abbrev no_channels : ChannelQuery
no_channels peer amount = (false, false)

voting_app-IsValidator : is_validator voting_app.id voting_app.state ≡ true
unfolding is_validator str_eq
voting_app-IsValidator = refl

proposal_passes :
    check_kind no_check toy_externals no_channels val voting_app proposal_tx
    ≡ returns (voting_app, ok)
unfolding check_kind validate_validator_tx split str_eq parse_int trim_prefix is_validator
    get_validation_record get_pub_key_hex lookup add64 wrap64 ◌+ℤ◌ new_tx_validation
proposal_passes = refl

check_kind_promotion_example :
    (t : ValTx) × (validate_validator_tx toy_externals proposal ≡ returns t)
    × (t.err ≡ none)
    × Promoted voting_app proposal_tx t
check_kind_promotion_example =
    check_kind_promotion no_check toy_externals no_channels voting_app proposal_tx
      voting_app-IsValidator proposal_passes refl
