-- ===== src/Rpc.antt =====
-- tendermintrpc/rpc.go: what the application asks of Tendermint's RPC client, which is a parameter.
pub mod Pages
pub mod Ranges
use chainpoint_core.Prelude.{
  ℕ, zero, suc, ◌+◌, ◌/◌, ℤ, pos, leb_ℤ, ltb_ℤ, inc64, ◌-ℤ◌, pos_part, Str, str, str_eq, Bool, true,
  false, ◌&&◌, Option, none, some, List, [], ◌∷◌, ◌++◌, ltb, leb, if◌then◌else◌,
}
use chainpoint_core.Types.{Tx, BtcTxMsg, BtcMonMsg}
use chainpoint_core.Externals.{Externals}
use chainpoint_core.Strconv.{format_int, byte_to_int64}
use chainpoint_core.Strconv.Hex.{hex_decode}
use chainpoint_core.Util.Tx.{Error, decode_tx}
use chainpoint_core.Calendar.{ResultTx}

-- A result of TxSearch: the count of all matches, and the matches of the page.
pub record ResultTxSearch : Type 0 where
  pub total_count : ℕ
  pub txs : List ResultTx

-- TxSearch with a query, a page, the matches per page and an order; Tx by a hash. No result is an error.
pub record TmClient : Type 0 where
  pub tx_search : Str → ℕ → ℕ → Str → Option ResultTxSearch
  pub tx : Str → Option ResultTx

-- The errors that the functions return.
pub data RpcError : Type 0 where
  client_failed bad_hash empty_range no_index no_match : RpcError

-- The outcome of the loop over pages, on fuel.
pub data Paged : Type 0 where
  out_of_fuel failed : Paged
  found : List Tx → Paged

abbrev pub empty_btc_tx_msg : BtcTxMsg
empty_btc_tx_msg = record {
  anchor_btc_agg_id = [];
  anchor_btc_agg_root = [];
  btc_tx_id = [];
  btc_tx_body = [];
  btc_tx_height = pos 0;
  cal_block_height = pos 0;
  begin_cal_tx_int = pos 0;
  end_cal_tx_int = pos 0;
}

-- The first attribute of the key, over all events in order.
unfoldable pub attribute : Str → List (Str × Str) → Option Str
attribute key [] = none
attribute key ((k, v) ∷ rest) =
    let more = attribute key rest in if str_eq k key then some v else more

unfoldable pub event_attribute : Str → List (List (Str × Str)) → Option Str
unfolding attribute
event_attribute key [] = none
event_attribute key (e ∷ events) =
    let more = event_attribute key events in
    elim (attribute key e) [ none ↦ more | some v ↦ some v ]

module _ (client : TmClient) where
  -- GetTxByInt
  unfoldable pub get_tx_by_int : ℤ → Option ResultTxSearch
  get_tx_by_int tx_int = client.tx_search (str "CAL.TxInt=" ++ format_int tx_int) 1 1 []

  -- GetTxByHash
  unfoldable pub get_tx_by_hash : Str → Option ResultTx × Option RpcError
  get_tx_by_hash txid =
      let (hash, good) = hex_decode txid in
      if good
      then elim (client.tx hash) [
        | none ↦ (none, some RpcError.client_failed)
        | some t ↦ (some t, none)
      ]
      else (none, some RpcError.bad_hash)

  -- The loop of GetCalTxRange, with the number of rounds left; `none` is the client's error.
  unfoldable pub cal_txs_from : ℕ → ℤ → Option (List ResultTx)
  unfolding get_tx_by_int
  cal_txs_from zero i = some []
  cal_txs_from (suc n) i = elim (get_tx_by_int i) [
    | none ↦ none
    | some r ↦ elim (cal_txs_from n (inc64 i)) [
      | none ↦ none
      | some more ↦ some (if ltb 0 r.total_count then r.txs ++ more else more)
    ]
  ]

  -- GetCalTxRange
  unfoldable pub get_cal_tx_range : ℤ → ℤ → List ResultTx × Option RpcError
  unfolding cal_txs_from
  get_cal_tx_range min_tx_int max_tx_int =
      if leb_ℤ max_tx_int min_tx_int
      then ([], some RpcError.empty_range)
      else elim (cal_txs_from (pos_part (max_tx_int -ℤ min_tx_int)) min_tx_int) [
        | none ↦ ([], some RpcError.client_failed)
        | some txs ↦ (txs, none)
      ]

  abbrev index_of : Option Str → ℤ × Option RpcError
  index_of none = (pos 0, some RpcError.no_index)
  index_of (some v) = (byte_to_int64 v, none)

  abbrev index_of_tx : Option ResultTx × Option RpcError → ℤ × Option RpcError
  index_of_tx (t, some e) = (pos 0, some e)
  index_of_tx (none, none) = (pos 0, some RpcError.no_index)
  index_of_tx (some t, none) = index_of (event_attribute (str "TxInt") t.events)

  -- GetIndexForCalTx
  unfoldable pub get_index_for_cal_tx : Str → ℤ × Option RpcError
  unfolding get_tx_by_hash event_attribute
  get_index_for_cal_tx txid = index_of_tx (get_tx_by_hash txid)

  -- GetBTCCForBtcRoot: the hash of the last match, nothing on an error
  abbrev pub last_hash : Str → List ResultTx → Str
  last_hash hash [] = hash
  last_hash hash (t ∷ ts) = last_hash t.hash ts

  unfoldable pub get_btcc_for_btc_root : BtcMonMsg → Str
  get_btcc_for_btc_root btc_mon =
      elim (client.tx_search (str "BTC-C.BTCC='" ++ (btc_mon.btc_head_root ++ str "'")) 1 1 []) [
        | none ↦ []
        | some r ↦ last_hash [] r.txs
      ]

  -- The loops of GetAnchorHeight
  unfoldable pub anchor_height_in : List ResultTx → Str × ℤ
  unfolding event_attribute
  anchor_height_in [] = ([], pos 0)
  anchor_height_in (t ∷ ts) =
      let rest = anchor_height_in ts in
      elim (event_attribute (str "BTCCBH") t.events) [
        | none ↦ rest
        | some v ↦ (t.hash, byte_to_int64 v)
      ]

  -- GetAnchorHeight
  unfoldable pub get_anchor_height : BtcTxMsg → Str × ℤ
  unfolding anchor_height_in
  get_anchor_height btc_tx =
      elim (client.tx_search (str "BTC-C.BTCCTX='" ++ (btc_tx.btc_tx_id ++ str "'")) 1 1 []) [
        | none ↦ ([], pos 0)
        | some r ↦ anchor_height_in r.txs
      ]

  module _ (ext : Externals) where
    -- The test of GetBtcaForCalTx on one result.
    abbrev pub covers : ℤ → BtcTxMsg × Bool → Bool
    covers index (msg, true) = false
    covers index (msg, false) = leb_ℤ msg.begin_cal_tx_int index && ltb_ℤ index msg.end_cal_tx_int

    abbrev covering : ℤ → Tx × Option Error → Option BtcTxMsg
    covering index (tx, some e) = none
    covering index (tx, none) =
        let msg = ext.btc_tx_msg_of_json tx.tx_data in if covers index msg then some msg.0 else none

    -- The loop of GetBtcaForCalTx
    unfoldable pub first_covering : ℤ → List ResultTx → Option BtcTxMsg
    first_covering index [] = none
    first_covering index (t ∷ ts) =
        let rest = first_covering index ts in
        elim (covering index (decode_tx ext t.tx)) [ none ↦ rest | some msg ↦ some msg ]

    abbrev matched : Option BtcTxMsg → BtcTxMsg × Option RpcError
    matched none = (empty_btc_tx_msg, some RpcError.no_match)
    matched (some msg) = (msg, none)

    abbrev btca_at : ℤ × Option RpcError → BtcTxMsg × Option RpcError
    btca_at (index, some e) = (empty_btc_tx_msg, some e)
    btca_at (index, none) =
        elim (client.tx_search (str "BTC-A.TxInt>" ++ format_int index) 1 5 (str "asc")) [
          | none ↦ (empty_btc_tx_msg, some RpcError.client_failed)
          | some r ↦ matched (first_covering index r.txs)
        ]

    -- GetBtcaForCalTx
    unfoldable pub get_btca_for_cal_tx : Str → BtcTxMsg × Option RpcError
    unfolding first_covering get_index_for_cal_tx
    get_btca_for_cal_tx txid = btca_at (get_index_for_cal_tx txid)

    abbrev core_id_of : Tx × Option Error → Option Str
    core_id_of (tx, some e) = none
    core_id_of (tx, none) = some tx.core_id

    -- GetAnchoringCore: the core of the first match that decodes; true is the client's error.
    unfoldable pub first_core : List ResultTx → Str
    first_core [] = []
    first_core (t ∷ ts) =
        let rest = first_core ts in
        elim (core_id_of (decode_tx ext t.tx)) [ none ↦ rest | some id ↦ id ]

    unfoldable pub get_anchoring_core : Str → Str × Bool
    unfolding first_core
    get_anchoring_core query_line = elim (client.tx_search query_line 1 1 []) [
      | none ↦ ([], true)
      | some r ↦ (first_core r.txs, false)
    ]

    abbrev pub tx_if_decoded : Tx × Option Error → List Tx → List Tx
    tx_if_decoded (tx, some e) rest = rest
    tx_if_decoded (tx, none) rest = tx ∷ rest

    unfoldable pub decoded_txs : List ResultTx → List Tx
    decoded_txs [] = []
    decoded_txs (t ∷ ts) = tx_if_decoded (decode_tx ext t.tx) (decoded_txs ts)

    abbrev pub txs_of_page : ResultTxSearch → List Tx
    txs_of_page r = if ltb 0 r.total_count then decoded_txs r.txs else []

    -- The loop over the pages from `i` to `end_page`, which each page sets anew.
    unfoldable pub all_pages : ℕ → Str → Str → ℕ → ℕ → List Tx → Paged
    unfolding decoded_txs
    all_pages zero query order i end_page txs = Paged.out_of_fuel
    all_pages (suc fuel) query order i end_page txs = elim (leb i end_page) [
      | false ↦ Paged.found txs
      | true ↦ elim (client.tx_search query i 100 order) [
        | none ↦ Paged.failed
        | some r ↦
            all_pages fuel query order (i + 1) (r.total_count / 100 + 1) (txs ++ txs_of_page r)
      ]
    ]

    -- GetAllJWKs and GetAllCHNGSTK
    unfoldable pub get_all_jwks : ℕ → Paged
    unfolding all_pages
    get_all_jwks fuel = all_pages fuel (str "JWK.CORE='NEW'") (str "asc") 1 2 []

    unfoldable pub get_all_chngstk : ℕ → Paged
    unfolding all_pages
    get_all_chngstk fuel = all_pages fuel (str "CHNGSTK.CHANGE='STAKE'") [] 1 2 []
