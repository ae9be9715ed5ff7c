-- ===== src/Types.antt =====
-- types/types.go: the data that the components share. A Go string is a list of bytes; an int64 is an
-- integer whose arithmetic wraps; a float32 is its 32 bits; a map is a `Dict`.
use chainpoint_core.Prelude.{ℕ, ℤ, Str, Dict, Bool, List}

-- ecdsa.PublicKey: the size in bits of the curve's field, and the point
pub record PublicKey : Type 0 where
  pub bit_size : ℕ
  pub x : ℕ
  pub y : ℕ

pub record LnIdentity : Type 0 where
  pub peer : Str
  pub required_chan_amt : ℤ

pub record Tx : Type 0 where
  pub tx_type : Str
  pub tx_data : Str
  pub version : ℤ
  pub time : ℤ
  pub core_id : Str
  pub meta : Str
  pub sig : Str

pub record RateLimit : Type 0 where
  pub allowed_rate : ℤ
  pub per_blocks : ℤ
  pub last_check : ℤ
  pub bucket : ℕ  -- the bits of a float32

pub record TxValidation : Type 0 where
  pub last_jwk_tx_height : ℤ
  pub jwk_allowed_rate : RateLimit
  pub jwk_submissions : ℤ
  pub last_cal_tx_height : ℤ
  pub cal_allowed_rate : RateLimit
  pub cal_validation_success : ℤ
  pub cal_validation_failures : ℤ
  pub last_btca_tx_height : ℤ
  pub confirmed_anchors : ℤ
  pub failed_anchors : ℤ
  pub btca_allowed_rate : RateLimit
  pub last_btcc_tx_height : ℤ
  pub btcc_allowed_rate : RateLimit
  pub last_nist_tx_height : ℤ
  pub nist_allowed_rate : RateLimit
  pub last_fee_tx_height : ℤ
  pub fee_allowed_rate : RateLimit
  pub fee_validation_failures : ℤ
  pub un_auth_val_submissions : ℤ

-- What the code reads of Tendermint's Validator, ValidatorUpdate, Peer and ResultStatus.
pub record Validator : Type 0 where
  pub address : Str

pub record ValidatorUpdate : Type 0 where
  pub pub_key : Str
  pub power : ℤ

pub record Peer : Type 0 where
  pub id : Str
  pub remote_ip : Str
  pub listen_addr : Str

pub record TmStatus : Type 0 where
  pub node_id : Str
  pub listen_addr : Str
  pub latest_block_hash : Str
  pub catching_up : Bool
  pub validator_address : Str

pub record AnchorState : Type 0 where
  pub id : Str
  pub tx_int : ℤ
  pub height : ℤ
  pub am_validator : Bool
  pub app_hash : Str
  pub begin_cal_tx_int : ℤ
  pub end_cal_tx_int : ℤ
  pub latest_cal_tx_int : ℤ
  pub current_cal_ints : ℤ
  pub latest_btca_tx : Str
  pub latest_btca_tx_int : ℤ
  pub latest_btca_height : ℤ
  pub latest_btc_tx : Str
  pub latest_btc_agg_root : Str
  pub latest_btcc_tx : Str
  pub latest_btcc_tx_int : ℤ
  pub latest_btcc_height : ℤ
  pub latest_err_root : Str
  pub last_elected_core_id : Str
  pub last_anchor_core_id : Str
  pub last_error_core_id : Str
  pub btc_height : ℤ
  pub tx_validation : Dict TxValidation
  pub core_keys : Dict PublicKey
  pub ln_uris : Dict LnIdentity
  pub id_map : Dict Str
  pub validators : List Validator
  pub tm_state : TmStatus
  pub tm_net_info : List Peer
  pub ln_block_height : ℕ  -- LNState.BlockHeight, a uint32
  pub chain_synced : Bool
  pub jwk_staked : Bool
  pub ln_stake_price : ℤ
  pub ln_stake_per_val : ℤ
  pub latest_nist_record : Str
  pub latest_time_record : Str
  pub latest_btc_fee : ℤ
  pub last_btc_fee_height : ℤ
  pub app_ready : Bool

-- AnchorConfig: the settings that the modelled code reads
pub record AnchorConfig : Type 0 where
  pub bitcoin_network : Str
  pub election_mode : Str
  pub do_cal : Bool
  pub do_anchor : Bool
  pub anchor_interval : ℤ
  pub anchor_reward : ℤ
  pub stake_per_core : ℤ
  pub update_stake : Str
  pub fee_interval : ℤ
  pub core_uri : Str
  pub proposed_val : Str
  pub file_pv_address : Str  -- FilePV.GetAddress().String()

-- A big integer pair (r, s) of an ECDSA signature.
pub record EcdsaSignature : Type 0 where
  pub r : ℤ
  pub s : ℤ

-- JSON web key
pub record Jwk : Type 0 where
  pub kty : Str
  pub kid : Str
  pub crv : Str
  pub x : Str
  pub y : Str

pub record BtcTxMsg : Type 0 where
  pub anchor_btc_agg_id : Str
  pub anchor_btc_agg_root : Str
  pub btc_tx_id : Str
  pub btc_tx_body : Str
  pub btc_tx_height : ℤ
  pub cal_block_height : ℤ
  pub begin_cal_tx_int : ℤ
  pub end_cal_tx_int : ℤ

pub record AnchorRange : Type 0 where
  pub anchor_btc_agg_root : Str
  pub cal_block_height : ℤ
  pub btc_block_height : ℤ
  pub begin_cal_tx_int : ℤ
  pub end_cal_tx_int : ℤ
  pub am_leader : Bool

-- A step of a proof: bytes on the left, bytes on the right, or an operation.
pub record ProofLineItem : Type 0 where
  pub left : Str
  pub right : Str
  pub op : Str

pub record JsProof : Type 0 where
  pub left : Str
  pub right : Str

pub record BtcMonMsg : Type 0 where
  pub btc_tx_id : Str
  pub btc_head_height : ℤ
  pub btc_head_root : Str
  pub path : List JsProof

pub record TxId : Type 0 where
  pub tx_id : Str
  pub block_height : ℤ
  pub anchor_btc_agg_root : Str

pub record HashItem : Type 0 where
  pub proof_id : Str
  pub hash : Str

pub record AggState : Type 0 where
  pub proof_id : Str
  pub hash : Str
  pub agg_id : Str
  pub agg_state : Str
  pub agg_root : Str

pub record Aggregation : Type 0 where
  pub agg_id : Str
  pub agg_root : Str
  pub agg_states : List AggState

pub record CalProofData : Type 0 where
  pub agg_id : Str
  pub proof : List ProofLineItem

pub record CalAgg : Type 0 where
  pub cal_root : Str
  pub proof_data : List CalProofData

pub record BtcProofData : Type 0 where
  pub cal_id : Str
  pub proof : List ProofLineItem

pub record BtcAgg : Type 0 where
  pub anchor_btc_agg_id : Str
  pub anchor_btc_agg_root : Str
  pub proof_data : List BtcProofData

pub record OpsState : Type 0 where
  pub ops : List ProofLineItem

pub record AnchorObj : Type 0 where
  pub anchor_id : Str
  pub uris : List Str

pub record AnchorOpsState : Type 0 where
  pub ops : List ProofLineItem
  pub anchor : AnchorObj

pub record CalStateObject : Type 0 where
  pub agg_id : Str
  pub cal_id : Str
  pub cal_state : Str

pub record AnchorBtcAggState : Type 0 where
  pub cal_id : Str
  pub anchor_btc_agg_id : Str
  pub anchor_btc_agg_state : Str

pub record AnchorBtcTxState : Type 0 where
  pub anchor_btc_agg_id : Str
  pub btc_tx_id : Str
  pub btc_tx_state : Str

pub record AnchorBtcHeadState : Type 0 where
  pub btc_tx_id : Str
  pub btc_head_height : ℤ
  pub btc_head_state : Str

pub record ProofState : Type 0 where
  pub proof_id : Str
  pub proof : Str
