-- ===== src/Externals.antt =====
-- The functions of other packages that the application calls: base64, JSON, ASN.1, hashes, ECDSA.
-- They are parameters of the model.
use chainpoint_core.Prelude.{Str, Bool, Option, List}
use chainpoint_core.Types.{
  Tx, PublicKey, EcdsaSignature, LnIdentity, Jwk, BtcTxMsg, BtcMonMsg, AnchorState, ValidatorUpdate,
}

-- A key of a JWK set: it has no key material, it is an ECDSA public key, or it is of another kind.
pub data JwkKey : Type 0 where
  no_material other_material : JwkKey
  ecdsa_key : PublicKey → JwkKey

-- A JSON decoder returns the value filled so far, and whether there was an error.
pub record Externals : Type 0 where
  pub base64_decode : Str → Option Str
  pub base64_encode : Str → Str
  pub tx_of_json : Str → Tx × Bool
  pub json_of_tx : Tx → Option Str
  pub ln_identity_of_json : Str → LnIdentity × Bool
  pub jwk_of_json : Str → Jwk × Bool
  pub btc_tx_msg_of_json : Str → BtcTxMsg × Bool
  pub btc_mon_msg_of_json : Str → BtcMonMsg × Bool
  pub signature_of_asn1 : Str → Option EcdsaSignature
  pub sha256 : Str → Str
  pub ecdsa_verify : PublicKey → Str → EcdsaSignature → Bool
  -- json.Marshal of a Jwk, and jwk.ParseBytes with what `Materialize` makes of each key of the set
  pub json_of_jwk : Jwk → Option Str
  pub jwk_set_of_json : Str → Option (List JwkKey)
  pub is_ln_uri : Str → Bool
  pub json_of_state : AnchorState → Option Str
  -- protobuf's WriteMessage of a validator update, and the address of an ed25519 key
  pub write_validator_update : ValidatorUpdate → Option Str
  pub address_of_key : Str → Str
