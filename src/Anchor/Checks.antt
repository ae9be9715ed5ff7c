-- ===== src/Anchor/Checks.antt =====
-- anchor/bitcoin/bitcoinanchor.go: the ranges that the engine watches until their anchor is in sight.
pub mod Removal
use chainpoint_core.Prelude.{
  ◌==◌, ℤ, pos, leb_ℤ, ltb_ℤ, eqb_ℤ, sub64, Str, str_eq, Bool, true, false, not, ◌&&◌, Option, none,
  some, List, [], ◌∷◌, ◌++◌, if◌then◌else◌,
}
use chainpoint_core.Types.{AnchorState, AnchorRange, TxId}
use chainpoint_core.LevelDb.{DbOps, StringsJson}
use chainpoint_core.LevelDb.KvStore.{StoreError, get_array, del}
use chainpoint_core.ProofDb.{Json}
use chainpoint_core.Anchor.{
  AnchorJson, Engine, check_btc_tx_ids_key, confirmed_btc_tx_ids_key, reset_anchor,
}

-- A range that AnchorToChain is started on again.
abbrev pub Retries : Type 0
Retries = List (ℤ × ℤ)

abbrev pub is_check_of : Json AnchorRange → Str → Str → Bool
is_check_of j root s =
    let (anchor, failed) = j.decode s in not failed && str_eq anchor.anchor_btc_agg_root root

module _ {D : Type 0} (ops : DbOps D) (js : StringsJson) (aj : AnchorJson) where
  -- The loop of FindAndRemoveBtcCheck
  unfoldable pub remove_checks : Str → List Str → D → D × Option StoreError
  unfolding del
  remove_checks agg_root [] d = (d, none)
  remove_checks agg_root (s ∷ ss) d = elim (is_check_of aj.anchor_range agg_root s) [
    | false ↦ remove_checks agg_root ss d
    | true ↦
        let (d', e) = del ops js d check_btc_tx_ids_key s in
        elim e [ some err ↦ (d', some err) | none ↦ remove_checks agg_root ss d' ]
  ]

  -- FindAndRemoveBtcCheck
  unfoldable pub find_and_remove_btc_check : Str → D → D × Option StoreError
  unfolding remove_checks get_array
  find_and_remove_btc_check agg_root d =
      let (results, e) = get_array ops js d check_btc_tx_ids_key in
      elim e [ some err ↦ (d, some err) | none ↦ remove_checks agg_root results d ]

  abbrev drop_check : Str → Engine D → Engine D × Option StoreError
  drop_check s eng =
      let (d, e) = del ops js eng.db check_btc_tx_ids_key s in (record eng { db = d }, e)

  abbrev pub mempool_timeout : AnchorState → AnchorRange → Bool
  mempool_timeout s anchor = ltb_ℤ (pos 10) (sub64 s.height anchor.cal_block_height)

  abbrev pub block_timeout : AnchorState → AnchorRange → Bool
  block_timeout s anchor =
      not (eqb_ℤ anchor.btc_block_height (pos 0))
      && leb_ℤ (pos 144) (sub64 (pos s.ln_block_height) anchor.btc_block_height)

  -- A core that reported an error: the check goes, and the range begins anew.
  abbrev on_error : Str → AnchorRange → Engine D → Engine D × Retries
  on_error s anchor eng =
      let (eng', e) = drop_check s eng in
      elim e [ some err ↦ (eng', []) | none ↦ (reset_anchor anchor.begin_cal_tx_int eng', []) ]

  abbrev retry : AnchorRange → Engine D → Engine D × Retries
  retry anchor eng =
      if leb_ℤ anchor.end_cal_tx_int eng.state.begin_cal_tx_int
      then (eng, (anchor.begin_cal_tx_int, anchor.end_cal_tx_int) ∷ [])
      else (reset_anchor anchor.begin_cal_tx_int eng, [])

  abbrev on_mempool : Str → AnchorRange → Engine D → Engine D × Retries
  on_mempool s anchor eng =
      if mempool_timeout eng.state anchor
      then (let (eng', again) = retry anchor eng in ((drop_check s eng').0, again))
      else (eng, [])

  -- One round of MonitorFailedAnchor
  unfoldable pub check_range : Str → AnchorRange → Engine D → Engine D × Retries
  unfolding del reset_anchor
  check_range s anchor eng =
      if str_eq anchor.anchor_btc_agg_root eng.state.last_error_core_id
      then on_error s anchor eng
      else (let (eng', again) = on_mempool s anchor eng in
          ((if block_timeout eng.state anchor then (drop_check s eng').0 else eng'), again))

  unfoldable pub check_ranges : List Str → Engine D → Engine D × Retries
  unfolding check_range
  check_ranges [] eng = (eng, [])
  check_ranges (s ∷ ss) eng =
      let (anchor, failed) = aj.anchor_range.decode s in
      elim failed [
        | true ↦ check_ranges ss eng
        | false ↦
            let (eng', again) = check_range s anchor eng in
            let (eng'', more) = check_ranges ss eng' in (eng'', again ++ more)
      ]

  -- MonitorFailedAnchor
  unfoldable pub monitor_failed_anchor : Engine D → Engine D × Retries
  unfolding check_ranges get_array
  monitor_failed_anchor eng =
      if eng.state.ln_block_height == 0
      then (eng, [])
      else (let (results, e) = get_array ops js eng.db check_btc_tx_ids_key in
          elim e [ some err ↦ (eng, []) | none ↦ check_ranges results eng ])

  abbrev pub is_tx_of : Str → TxId × Bool → Bool
  is_tx_of root (tx, failed) = not failed && str_eq tx.anchor_btc_agg_root root

  abbrev empty_tx_id : TxId
  empty_tx_id = record { tx_id = []; block_height = pos 0; anchor_btc_agg_root = [] }

  unfoldable pub first_tx_of : Str → List Str → Bool × TxId
  first_tx_of root [] = (false, empty_tx_id)
  first_tx_of root (s ∷ ss) =
      let rest = first_tx_of root ss in
      if is_tx_of root (aj.tx_id.decode s) then (true, (aj.tx_id.decode s).0) else rest

  -- IsInConfirmedTxs
  unfoldable pub is_in_confirmed_txs : Str → D → Bool × TxId
  unfolding first_tx_of get_array
  is_in_confirmed_txs anchor_root d =
      let (results, e) = get_array ops js d confirmed_btc_tx_ids_key in
      elim e [ some err ↦ (false, empty_tx_id) | none ↦ first_tx_of anchor_root results ]
