-- ===== src/Abci/Check.antt =====
-- abci/transactions.go, validateTx: the check of a transaction before it is gossiped.
pub mod Promotion
use chainpoint_core.Prelude.{
  ◌*◌, ℤ, pos, ltb_ℤ, leb_ℤ, eqb_ℤ, inc64, add64, Str, str, Bool, true, false, not, ◌&&◌, ◌||◌,
  Option, none, some, str_eq, length, if◌then◌else◌, Run, returns, ◌>>=◌,
}
use chainpoint_core.Types.{Tx, TxValidation, AnchorState, BtcTxMsg}
use chainpoint_core.FloatOps.{FloatOps}
use chainpoint_core.Externals.{Externals}
use chainpoint_core.Strconv.{NumError, parse_int}
use chainpoint_core.TxKind.{TxKind, val, chngstk, btc_a, jwk, kind_of}
use chainpoint_core.Util.Tx.{Error, decode_tx}
use chainpoint_core.TxRateLimiter.{get_validation_record, set_validation_record, is_validator}
use chainpoint_core.TxRateLimiter.Validate.{Outcome, validate}
use chainpoint_core.Abci.{App, Code, ok, encoding_error, unauthorized}
use chainpoint_core.Abci.Validators.{ValTx, ValError, validate_validator_tx}
use chainpoint_core.Abci.Identity.{ChannelQuery, verify_identity}
use chainpoint_core.Abci.Block.{set_state}

-- CheckAnchor of the anchor engine's interface: whether it returns an error.
abbrev pub AnchorCheck : Type 0
AnchorCheck = BtcTxMsg → Bool

-- SUCCESSFUL_ANCHOR_CRITERIA
abbrev successful_anchor_criteria : ℤ
successful_anchor_criteria = pos 100

-- The id that the code accepts in any case.
abbrev pub always_accepted : Str
always_accepted = str "08ABE61DA90ED45BD51C26B903D0908DCC80C2FC"

-- The record of an unauthorized submitter; the code asks for an error where it means none, and then
-- the record is not stored either.
abbrev pub note_submitter : Str → AnchorState → Str × TxValidation × Option Error → AnchorState
note_submitter core_id state (hex, r, none) = state
note_submitter core_id state (hex, r, some e) =
    (set_validation_record core_id
      (record r { un_auth_val_submissions = inc64 r.un_auth_val_submissions }) state).0

-- case "BTC-A"
abbrev anchor_matches : AnchorCheck → BtcTxMsg × Bool → Bool
anchor_matches check_anchor (btca, true) = false
anchor_matches check_anchor (btca, false) = not (check_anchor btca)

module _ {D : Type 0} where
  abbrev pub answer : App D → Bool → App D × Code
  answer app good = (app, if good then ok else unauthorized)

  -- Whether a candidate is good, which the code asks only where there is an error.
  abbrev pub good_candidate : App D → ℤ → Str × TxValidation × Option Error → Bool
  good_candidate app power (hex, r, none) = false
  good_candidate app power (hex, r, some e) =
      if leb_ℤ power (pos 0)
      then true
      else ltb_ℤ (add64 successful_anchor_criteria (pos (10 * length app.state.validators)))
          r.confirmed_anchors
        || str_eq app.config.bitcoin_network (str "testnet")

  abbrev pub judge : App D → Tx → ValTx → Bool
  judge app tx t =
      let good =
        good_candidate app t.power (get_validation_record t.id app.state)
        && str_eq app.pending_validator tx.tx_data in
      not (is_validator app.id app.state) || (good || str_eq t.id always_accepted)

  abbrev pub noted : App D → Tx → App D
  noted app tx =
      if is_validator tx.core_id app.state
      then app
      else set_state app
          (note_submitter tx.core_id app.state (get_validation_record tx.core_id app.state))

  abbrev pub check_parsed_val : App D → Tx → ValTx → Option ValError → App D × Code
  check_parsed_val app tx t (some e) = (app, encoding_error)
  check_parsed_val app tx t none = answer (noted app tx) (judge (noted app tx) tx t)

  -- case "CHNGSTK"
  abbrev stake_matches : App D → ℤ × Option NumError → Bool
  stake_matches app (stake, some e) = false
  stake_matches app (stake, none) = eqb_ℤ stake app.pending_change_stake

  module _ (check_anchor : AnchorCheck) where
    module _ (ext : Externals) (channels : ChannelQuery) where
      -- The switch on the type of the transaction.
      unfoldable pub check_kind : TxKind → App D → Tx → Run (App D × Code)
      check_kind btc_a app tx =
          returns (answer app (anchor_matches check_anchor (ext.btc_tx_msg_of_json tx.tx_data)))
      check_kind val app tx =
          validate_validator_tx ext tx.tx_data >>= λ t. returns (check_parsed_val app tx t t.err)
      check_kind chngstk app tx = returns (answer app (stake_matches app (parse_int tx.tx_data)))
      check_kind jwk app tx =
          returns (answer app (verify_identity ext channels app.id tx app.state))
      check_kind _ app tx = returns (app, ok)

      -- The two refusals before the switch.
      unfoldable pub check_outcome : App D → Outcome → Run (App D × Code)
      unfolding check_kind
      check_outcome app o = elim o.err [
        | some e ↦ returns (set_state app o.after, unauthorized)
        | none ↦
            if not o.validated && not (str_eq o.tx.core_id app.id)
            then returns (set_state app o.after, unauthorized)
            else check_kind (kind_of o.tx.tx_type) (set_state app o.after) o.tx
      ]

      abbrev unlimited : App D → Tx × Option Error → Outcome
      unlimited app (tx, e) = record { after = app.state; tx = tx; validated = true; err = e }

      -- validateTx, which CheckTx calls
      unfoldable pub check_tx : FloatOps → App D → Str → Run (App D × Code)
      unfolding check_outcome
      check_tx fl app raw_tx = check_outcome app (
          if app.state.chain_synced
          then validate fl ext raw_tx app.state
          else unlimited app (decode_tx ext raw_tx))
