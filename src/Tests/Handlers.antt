-- ===== src/Tests/Handlers.antt =====
-- The handlers of the application at work.
use chainpoint_core.Prelude.{
  ℤ, pos, ◌<ℤ◌, ◌+ℤ◌, Str, str, Dict, ◌≡◌, refl, ap, arith, length, str_eq, lookup, returns, panics,
  none,
}
use chainpoint_core.Abci.Deliver.{
  Delivery, delivered_tx, update_state_from_tx, deliver_cal, deliver_kind,
}
use chainpoint_core.Abci.Counters.{counters_of, count_step, update_state_from_tx-refines}
use chainpoint_core.Abci.Anchoring.{IsOrdered, EachRange, start_anchoring-ranges}
use chainpoint_core.Abci.Chain.{Reach, Step, Reach-IsOrdered}
use chainpoint_core.Abci.Block.{begin_block, start_anchoring, app_hash_of}
use chainpoint_core.Abci.AppHash.{app_hash_of_lem}
use chainpoint_core.Strconv.{byte_to_int64, int64_to_byte}
use chainpoint_core.Strconv.RoundTrip.{byte_to_int64-int64_to_byte}
use chainpoint_core.TxKind.{jwk, kind_of}
use chainpoint_core.Abci.Poison.{gives_key, update_state_from_tx-panics}
use chainpoint_core.Abci.Identity.{decode_pub_key}
use chainpoint_core.Util.Tx.{decode_tx_and_verify_sig}
use chainpoint_core.Tests.Fixtures.{toy_externals, toy_db, toy_election, toy_app, toy_state}

abbrev cal_delivered : Delivery (Dict Str)
cal_delivered = deliver_cal toy_app (str "CAL")

cal_returns : update_state_from_tx toy_externals toy_db toy_app (str "CAL") ≡ returns cal_delivered
unfolding update_state_from_tx deliver_kind delivered_tx kind_of str_eq decode_tx_and_verify_sig
    lookup
cal_returns = refl

update_state_from_tx-refines_example :
    counters_of cal_delivered.app.state
    ≡ count_step
        (kind_of (delivered_tx toy_externals toy_db toy_app (str "CAL")).tx_type)
        cal_delivered.code
        (counters_of toy_state)
update_state_from_tx-refines_example =
    update_state_from_tx-refines toy_externals toy_db toy_app (str "CAL") cal_returns

toy_state-IsOrdered : IsOrdered (counters_of toy_state)
toy_state-IsOrdered = omega arith

toy_run : Reach toy_externals toy_election toy_db toy_app cal_delivered.app
unfolding begin_block
toy_run =
    Reach.next (Reach.next Reach.here (Step.begun toy_app))
      (Step.delivered (begin_block toy_app) (str "CAL") cal_delivered cal_returns (omega arith))

Reach-IsOrdered_example : IsOrdered (counters_of cal_delivered.app.state)
Reach-IsOrdered_example =
    Reach-IsOrdered toy_externals toy_election toy_db toy_state-IsOrdered toy_run

start_anchoring-ranges_example :
    EachRange (λ b e. (b ≡ pos 0) × (b <ℤ e) × (e +ℤ pos 2 ≡ pos 4)) (start_anchoring toy_app).1
start_anchoring-ranges_example =
    start_anchoring-ranges toy_app toy_state-IsOrdered (omega arith) (omega arith)

byte_to_int64-int64_to_byte_example : byte_to_int64 (int64_to_byte (pos 1205)) ≡ pos 1205
byte_to_int64-int64_to_byte_example = byte_to_int64-int64_to_byte (pos 1205) (omega arith)

app_hash_of_lem_example :
    (bs : Str) × (app_hash_of (pos 300) ≡ returns bs)
    × (length bs ≡ 8)
    × ((h : ℤ) → app_hash_of h ≡ returns bs → h ≡ pos 300)
app_hash_of_lem_example = app_hash_of_lem 300 (omega arith)

abbrev jwk_text : Str
jwk_text = str "JWK"

poison_kind : kind_of (delivered_tx toy_externals toy_db toy_app jwk_text).tx_type ≡ jwk
unfolding kind_of str_eq delivered_tx decode_tx_and_verify_sig
poison_kind = refl

poison_key :
    decode_pub_key toy_externals (delivered_tx toy_externals toy_db toy_app jwk_text) ≡ returns none
unfolding decode_pub_key
poison_key = refl

-- The delivery of this transaction does panic.
jwk_text_poisons : update_state_from_tx toy_externals toy_db toy_app jwk_text ≡ panics
jwk_text_poisons =
    (update_state_from_tx-panics toy_externals toy_db toy_app jwk_text).1
      (rw poison_kind (refl, ap gives_key poison_key))
