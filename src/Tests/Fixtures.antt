-- ===== src/Tests/Fixtures.antt =====
-- A concrete instance of the parameters, and a state.
use chainpoint_core.Prelude.{
  pos, Str, str, Dict, lookup, insert, delete, true, false, none, some, [], ◌∷◌,
}
use chainpoint_core.Types.{Tx, PublicKey, AnchorState, AnchorConfig, TmStatus, BtcTxMsg}
use chainpoint_core.Externals.{Externals}
use chainpoint_core.LevelDb.{DbOps}
use chainpoint_core.LeaderElection.{Election}
use chainpoint_core.Abci.{App}

-- A transaction of the core "c" whose type is the text that arrives.
abbrev pub toy_tx : Str → Tx
toy_tx incoming = record {
  tx_type = incoming;
  tx_data = str "7";
  version = pos 0;
  time = pos 0;
  core_id = str "c";
  meta = [];
  sig = [];
}

abbrev pub toy_btc_tx : BtcTxMsg
toy_btc_tx = record {
  anchor_btc_agg_id = [];
  anchor_btc_agg_root = str "root";
  btc_tx_id = str "tx";
  btc_tx_body = [];
  btc_tx_height = pos 0;
  cal_block_height = pos 4;
  begin_cal_tx_int = pos 0;
  end_cal_tx_int = pos 1;
}

abbrev pub toy_externals : Externals
toy_externals = record {
  base64_decode = λ s. some s;
  base64_encode = λ s. s;
  tx_of_json = λ s. (toy_tx s, false);
  json_of_tx = λ tx. some tx.tx_data;
  ln_identity_of_json = λ s. (record { peer = s; required_chan_amt = pos 0 }, false);
  jwk_of_json = λ s. (record { kty = []; kid = s; crv = []; x = []; y = [] }, false);
  btc_tx_msg_of_json = λ s. (toy_btc_tx, false);
  btc_mon_msg_of_json =
      λ s. (record { btc_tx_id = s; btc_head_height = pos 9; btc_head_root = s; path = [] }, false);
  signature_of_asn1 = λ s. some (record { r = pos 1; s = pos 2 });
  sha256 = λ s. s;
  ecdsa_verify = λ key hash sig. true;
  json_of_jwk = λ j. none;
  jwk_set_of_json = λ s. none;
  is_ln_uri = λ s. true;
  json_of_state = λ s. some s.app_hash;
  write_validator_update = λ v. some v.pub_key;
  address_of_key = λ k. k;
}

abbrev pub toy_db : DbOps (Dict Str)
toy_db = record {
  get = λ d k. (lookup k d, false);
  set = λ d k v. (insert k v d, false);
  delete = λ d k. (delete k d, false);
}

-- The election that takes every candidate.
abbrev pub toy_election : Election
toy_election = record {
  elect_strings = λ candidates n seed. some candidates;
  elect_validators = λ candidates n seed. some candidates;
  elect_peers = λ candidates n seed. some candidates;
}

abbrev pub toy_key : PublicKey
toy_key = record { bit_size = 8; x = 1; y = 2 }

abbrev pub toy_status : TmStatus
toy_status = record {
  node_id = str "c";
  listen_addr = [];
  latest_block_hash = str "h";
  catching_up = false;
  validator_address = [];
}

-- A synced node at height 70 that has seen four transactions, two of them CALs of the current block.
abbrev pub toy_state : AnchorState
toy_state = record {
  id = str "c";
  tx_int = pos 4;
  height = pos 70;
  am_validator = false;
  app_hash = [];
  begin_cal_tx_int = pos 0;
  end_cal_tx_int = pos 0;
  latest_cal_tx_int = pos 4;
  current_cal_ints = pos 2;
  latest_btca_tx = [];
  latest_btca_tx_int = pos 0;
  latest_btca_height = pos 0;
  latest_btc_tx = [];
  latest_btc_agg_root = [];
  latest_btcc_tx = [];
  latest_btcc_tx_int = pos 0;
  latest_btcc_height = pos 0;
  latest_err_root = [];
  last_elected_core_id = [];
  last_anchor_core_id = [];
  last_error_core_id = [];
  btc_height = pos 0;
  tx_validation = [];
  core_keys = (str "c", toy_key) ∷ (str "a", toy_key) ∷ [];
  ln_uris = [];
  id_map = [];
  validators = [];
  tm_state = toy_status;
  tm_net_info = [];
  ln_block_height = 0;
  chain_synced = true;
  jwk_staked = true;
  ln_stake_price = pos 0;
  ln_stake_per_val = pos 0;
  latest_nist_record = [];
  latest_time_record = [];
  latest_btc_fee = pos 0;
  last_btc_fee_height = pos 0;
  app_ready = true;
}

abbrev pub toy_config : AnchorConfig
toy_config = record {
  bitcoin_network = str "testnet";
  election_mode = str "test";
  do_cal = true;
  do_anchor = true;
  anchor_interval = pos 60;
  anchor_reward = pos 1;
  stake_per_core = pos 1;
  update_stake = [];
  fee_interval = pos 10;
  core_uri = [];
  proposed_val = [];
  file_pv_address = [];
}

abbrev pub toy_app : App (Dict Str)
toy_app = record {
  state = toy_state;
  config = toy_config;
  val_updates = [];
  val_addr_to_pub_key = [];
  pending_validator = [];
  pending_change_stake = pos 0;
  db = [];
  id = str "c";
  jwk_kid = [];
  ln_last_fee = pos 0;
}
