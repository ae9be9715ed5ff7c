-- ===== src/TxRateLimiter/Burst.antt =====
-- Runs of `Validate` over a sequence of incoming transactions at one height.
use chainpoint_core.Prelude.{
  ℕ, ◌+◌, ◌≤◌, Str, Dict, lookup, Option, none, some, List, [], ◌∷◌, ◌≡◌, refl, sym, subst, arith,
}
use chainpoint_core.Types.{TxValidation, Tx, AnchorState}
use chainpoint_core.FloatOps.{FloatOps, FloatLaws}
use chainpoint_core.Externals.{Externals}
use chainpoint_core.Util.Tx.{Error, decode_tx_and_verify_sig}
use chainpoint_core.TxRateLimiter.{is_validator, get_pub_key_hex}
use chainpoint_core.TxRateLimiter.Bucket.{IsLimit, update-AtMost}
use chainpoint_core.TxRateLimiter.Validate.{validate_tx, after_decoding, validate}
use chainpoint_core.TxRateLimiter.Steps.{btca_rate, Budget, takes, cost, NotValidator, decoded_step}

module _ (fl : FloatOps) (ext : Externals) where
  -- How many BTC-A transactions of the key are validated in a run.
  unfoldable pub btca_count : Str → List Str → AnchorState → ℕ
  btca_count hex [] state = 0
  btca_count hex (incoming ∷ rest) state =
      let o = validate fl ext incoming state in
      cost (takes hex state o) + btca_count hex rest o.after

  validate_tx_frame :
      (state : AnchorState) (tx : Tx)
      → (validate_tx fl ext state tx).after
        ≡ record state { tx_validation = (validate_tx fl ext state tx).after.tx_validation }
  unfolding validate_tx
  validate_tx_frame state tx = ground arith

  decoded_frame :
      (state : AnchorState) (d : Tx × Option Error)
      → (after_decoding fl ext state d).after
        ≡ record state { tx_validation = (after_decoding fl ext state d).after.tx_validation }
  decoded_frame state (tx, none) = validate_tx_frame state tx
  decoded_frame state (tx, some e) = refl

  -- Validation changes no field of the state but the validation records.
  pub validate_frame :
      (incoming : Str) (state : AnchorState)
      → (validate fl ext incoming state).after
        ≡ record state { tx_validation = (validate fl ext incoming state).after.tx_validation }
  unfolding validate
  validate_frame incoming state =
      decoded_frame state (decode_tx_and_verify_sig ext incoming state.core_keys)

NotValidator-frame :
    (hex : Str) (state : AnchorState) (m : Dict TxValidation)
    → NotValidator hex state
    → NotValidator hex (record state { tx_validation = m })
unfolding is_validator get_pub_key_hex
NotValidator-frame hex state m nv = nv

module _ (fl : FloatOps) (laws : FloatLaws fl) (ext : Externals) where
  Budget-bound :
      (n : ℕ) (hex : Str) (run : List Str) (state : AnchorState)
      → NotValidator hex state
      → Budget fl n hex state
      → btca_count fl ext hex run state ≤ n
  unfolding btca_count validate
  Budget-bound n hex [] state nv b = omega arith
  Budget-bound n hex (incoming ∷ run) state nv b =
      let d = decode_tx_and_verify_sig ext incoming state.core_keys in
      let o = after_decoding fl ext state d in
      let (m, q, b') = decoded_step fl laws ext n hex d state nv b in
      let nv' =
        subst (NotValidator hex) (sym (decoded_frame fl ext state d))
          (NotValidator-frame hex state o.after.tx_validation nv) in
      let ih = Budget-bound m hex run o.after nv' b' in omega arith

  -- For the key of cores that are no validators, with a record whose BTC-A limit is that of
  -- `NewTxValidation` and whose bucket is a number: of any sequence of incoming transactions at one
  -- height, of whatever senders and types, at most two BTC-A transactions of that key are validated.
  pub btca_burst :
      (hex : Str) (run : List Str) (state : AnchorState) (r : TxValidation)
      → NotValidator hex state
      → lookup hex state.tx_validation ≡ some r
      → IsLimit btca_rate r.btca_allowed_rate
      → btca_count fl ext hex run state ≤ 2
  btca_burst hex run state r nv found ok = Budget-bound btca_rate hex run state nv (record {
    entry = r;
    found = found;
    holds = record {
      limit_ok = ok;
      within = omega arith;
      tokens = update-AtMost fl laws btca_rate state.height r.btca_allowed_rate ok;
    };
  })
