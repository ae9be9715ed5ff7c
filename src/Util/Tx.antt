-- ===== src/Util/Tx.antt =====
-- util/util.go: decoding a transaction and checking its signature, and the hex of a public key.
use chainpoint_core.Prelude.{
  ℕ, zero, suc, ◌+◌, ◌/◌, ◌%◌, Str, str, Dict, lookup, Bool, true, false, Option, none, some, [],
  ◌∷◌, ◌++◌, str_eq, pos, if◌then◌else◌,
}
use chainpoint_core.Types.{Tx, PublicKey, EcdsaSignature}
use chainpoint_core.Externals.{Externals}
use chainpoint_core.Strconv.Hex.{hex_encode}

-- The errors that the code returns, one for each message or failing call.
pub data Error : Type 0 where
  bad_base64 bad_json no_core_key bad_signature bad_asn1 bad_marshal : Error
  no_key undeclared_core bad_number not_initialized : Error

-- types.Tx{}
abbrev pub empty_tx : Tx
empty_tx = record {
  tx_type = [];
  tx_data = [];
  version = pos 0;
  time = pos 0;
  core_id = [];
  meta = [];
  sig = [];
}

-- The low `n` bytes of a number, the highest first: `big.Int.FillBytes`.
unfoldable pub fill_bytes : ℕ → ℕ → Str
fill_bytes zero v = []
fill_bytes (suc n) v = fill_bytes n (v / 256) ++ (v % 256) ∷ []

-- elliptic.Marshal: the uncompressed form of a point
unfoldable pub marshal : PublicKey → Str
unfolding fill_bytes
marshal key =
    let byte_len = (key.bit_size + 7) / 8 in
    4 ∷ fill_bytes byte_len key.x ++ fill_bytes byte_len key.y

-- fmt.Sprintf("%x", elliptic.Marshal(…))
unfoldable pub public_key_hex : PublicKey → Str
unfolding marshal hex_encode
public_key_hex key = hex_encode (marshal key)

abbrev pub json_error : Bool → Option Error
json_error true = some bad_json
json_error false = none

module _ (ext : Externals) where
  abbrev tx_and_error : Tx × Bool → Tx × Option Error
  tx_and_error (tx, failed) = (tx, json_error failed)

  -- DecodeTx
  unfoldable pub decode_tx : Str → Tx × Option Error
  decode_tx incoming = elim (ext.base64_decode incoming) [
    | none ↦ (empty_tx, some bad_base64)
    | some decoded ↦ tx_and_error (ext.tx_of_json decoded)
  ]

  abbrev check_hash : Tx → PublicKey → EcdsaSignature → Option Str → Tx × Option Error
  check_hash tx key sig none = (empty_tx, some bad_marshal)
  check_hash tx key sig (some tx_no_sig) =
      if ext.ecdsa_verify key (ext.sha256 tx_no_sig) sig
      then (tx, none)
      else (empty_tx, some bad_signature)

  abbrev check_asn1 : Tx → PublicKey → Option EcdsaSignature → Tx × Option Error
  check_asn1 tx key none = (empty_tx, some bad_asn1)
  check_asn1 tx key (some sig) = check_hash tx key sig (ext.json_of_tx (record tx { sig = [] }))

  abbrev check_der : Tx → PublicKey → Option Str → Tx × Option Error
  check_der tx key none = (empty_tx, some bad_base64)
  check_der tx key (some der) = check_asn1 tx key (ext.signature_of_asn1 der)

  abbrev check_key : Tx → Option PublicKey → Tx × Option Error
  check_key tx none = (empty_tx, some no_core_key)
  check_key tx (some key) = check_der tx key (ext.base64_decode tx.sig)

  -- The part after the JSON decoding, whose error is overwritten by the next assignment to it.
  unfoldable pub verify_sig : Dict PublicKey → Tx → Tx × Option Error
  verify_sig core_keys tx =
      if str_eq tx.tx_type (str "JWK")
      then (tx, none)
      else check_key tx (lookup tx.core_id core_keys)

  -- DecodeTxAndVerifySig
  unfoldable pub decode_tx_and_verify_sig : Str → Dict PublicKey → Tx × Option Error
  unfolding verify_sig
  decode_tx_and_verify_sig incoming core_keys = elim (ext.base64_decode incoming) [
    | none ↦ (empty_tx, some bad_base64)
    | some decoded ↦ verify_sig core_keys (ext.tx_of_json decoded).0
  ]
