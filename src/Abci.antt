-- ===== src/Abci.antt =====
-- abci/: the application that Tendermint drives. Its state, and what it leaves running.
pub mod Validators
pub mod Identity
pub mod Deliver
pub mod Counters
pub mod Block
pub mod Anchoring
pub mod Chain
pub mod AppHash
pub mod CalBatch
pub mod Poison
pub mod Check
use chainpoint_core.Prelude.{ℤ, Str, Dict, List}
use chainpoint_core.Types.{AnchorState, AnchorConfig, ValidatorUpdate}

-- The goroutines that a handler starts, with their arguments.
pub data Spawn : Type 0 where
  anchor_calendar : ℤ → Spawn
  anchor_to_chain : ℤ → ℤ → Spawn
  begin_tx_monitor : Str → Spawn
  anchor_reward : Str → Spawn
  expire_cal_hash : Str → Spawn
  beacon_monitor fee_monitor monitor_blocks monitor_chain prune_old_state : Spawn
  broadcast_val : Str → Spawn
  broadcast_chngstk : ℤ → Spawn

-- The fields of AnchorApplication that the handlers read or write. `D` is the database's state.
pub record App (D : Type 0) : Type 0 where
  pub state : AnchorState
  pub config : AnchorConfig
  pub val_updates : List ValidatorUpdate
  pub val_addr_to_pub_key : Dict Str
  pub pending_validator : Str
  pub pending_change_stake : ℤ
  pub db : D
  pub id : Str
  pub jwk_kid : Str
  pub ln_last_fee : ℤ

-- The response codes of Tendermint's example application that the handlers use.
pub data Code : Type 0 where
  ok encoding_error unauthorized : Code

-- A tag of an event.
abbrev pub Tag : Type 0
Tag = Str × Str
