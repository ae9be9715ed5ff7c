-- ===== src/Abci/Identity.antt =====
-- abci/stakingidentity.go: the identities of cores, and util.DecodePubKey.
use chainpoint_core.Prelude.{
  ◌>>=◌, ℤ, Str, Dict, lookup, insert, has_key, Bool, true, false, not, ◌&&◌, ◌||◌, Option, none,
  some, List, [], ◌∷◌, str_eq, if◌then◌else◌, Run, returns, panics,
}
use chainpoint_core.Types.{Tx, PublicKey, Jwk, LnIdentity, TxValidation, AnchorState}
use chainpoint_core.Externals.{Externals, JwkKey, no_material, other_material, ecdsa_key}
use chainpoint_core.Util.Tx.{Error, bad_json, public_key_hex}
use chainpoint_core.TxRateLimiter.{new_tx_validation, is_validator}

-- types.Jwk{}
abbrev pub empty_jwk : Jwk
empty_jwk = record { kty = []; kid = []; crv = []; x = []; y = [] }

-- The loop over the keys of the set. The type assertion panics on a key of another kind; with no key
-- left the result is the empty key, here `none`, and an error.
unfoldable pub first_key : List JwkKey → Run (Option PublicKey)
first_key [] = returns none
first_key (no_material ∷ ks) = first_key ks
first_key (other_material ∷ ks) = panics
first_key (ecdsa_key k ∷ ks) = returns (some k)

module _ (ext : Externals) where
  abbrev keys_of : Option (List JwkKey) → Run (Option PublicKey)
  keys_of none = returns none
  keys_of (some ks) = first_key ks

  abbrev key_of_json : Option Str → Run (Option PublicKey)
  key_of_json none = returns none
  key_of_json (some j) = keys_of (ext.jwk_set_of_json j)

  -- DecodePubKey
  unfoldable pub decode_pub_key : Tx → Run (Option PublicKey)
  decode_pub_key tx = key_of_json (ext.json_of_jwk (ext.jwk_of_json tx.tx_data).0)

  -- An existing record is kept, and a new core gets a new one.
  unfoldable pub keep_record : Str → Dict TxValidation → Dict TxValidation
  keep_record hex m = elim (lookup hex m) [
    | none ↦ insert hex new_tx_validation m
    | some v ↦ insert hex v m
  ]

  unfoldable pub set_ln_uri : Str → LnIdentity → Dict LnIdentity → Dict LnIdentity
  set_ln_uri core_id ln_id m = if ext.is_ln_uri ln_id.peer then insert core_id ln_id m else m

  -- The part of SetIdentity after the key is decoded. `elliptic.Marshal` panics on the empty key.
  unfoldable pub store_identity : Tx → Jwk → AnchorState → Option PublicKey → Run AnchorState
  unfolding keep_record set_ln_uri
  store_identity tx jwk state none = panics
  store_identity tx jwk state (some key) = returns (record state {
    core_keys = insert tx.core_id key state.core_keys;
    tx_validation = keep_record (public_key_hex key) state.tx_validation;
    id_map = insert jwk.kid tx.core_id state.id_map;
    ln_uris = set_ln_uri tx.core_id (ext.ln_identity_of_json tx.meta).0 state.ln_uris;
  })

  abbrev pub with_jwk : Tx → AnchorState → Jwk × Bool → Run (AnchorState × Jwk × Option Error)
  with_jwk tx state (jwk, true) = returns (state, empty_jwk, some bad_json)
  with_jwk tx state (jwk, false) = do
    key ← decode_pub_key tx
    state' ← store_identity tx jwk state key
    returns (state', jwk, none)

  -- SetIdentity
  unfoldable pub set_identity : Tx → AnchorState → Run (AnchorState × Jwk × Option Error)
  set_identity tx state = with_jwk tx state (ext.jwk_of_json tx.tx_data)

  abbrev pub same_kid : Str → Str → Bool
  same_kid kid own = not (str_eq kid []) && not (str_eq own []) && str_eq kid own

  abbrev pub mark_staked : Str → AnchorState × Jwk × Option Error → AnchorState × Option Error
  mark_staked own (state, jwk, some e) = (state, some e)
  mark_staked own (state, jwk, none) =
      (if same_kid jwk.kid own then record state { jwk_staked = true } else state, none)

  -- SaveIdentity; `own` is the key id of this node's JWK
  unfoldable pub save_identity : Str → Tx → AnchorState → Run (AnchorState × Option Error)
  save_identity own tx state = do r ← set_identity tx state; returns (mark_staked own r)

-- What VerifyIdentity asks of the lightning client: whether a channel exists, and whether the call
-- failed.
abbrev pub ChannelQuery : Type 0
ChannelQuery = Str → ℤ → Bool × Bool

abbrev channel_is_open : Bool × Bool → Bool
channel_is_open (exists', failed) = not failed && exists'

module _ (ext : Externals) (any_channel_exists : ChannelQuery) where
  abbrev check_channel : Str → AnchorState → LnIdentity × Bool → Bool
  check_channel core_id state (ln_id, true) = false
  check_channel core_id state (ln_id, false) =
      is_validator core_id state
      || channel_is_open (any_channel_exists ln_id.peer state.ln_stake_per_val)

  -- VerifyIdentity; `own` is this node's id
  unfoldable pub verify_identity : Str → Tx → AnchorState → Bool
  verify_identity own tx state =
      let already_exists = has_key tx.core_id state.core_keys in
      if str_eq own tx.core_id
      then true
      else if state.chain_synced && state.am_validator && not already_exists
      then check_channel tx.core_id state (ext.ln_identity_of_json tx.meta)
      else if not state.chain_synced
      then true
      else if is_validator tx.core_id state && state.am_validator
      then true
      else not already_exists
