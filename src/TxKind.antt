-- ===== src/TxKind.antt =====
-- The `switch string(tx.TxType)` of txratelimiter/validation.go and abci/transactions.go: the types of
-- transaction that the code tells apart.
use chainpoint_core.Prelude.{Str, str, str_eq, if◌then◌else◌}

pub data TxKind : Type 0 where
  val chngstk cal btc_e btc_a btc_c nist drand fee jwk other : TxKind

unfoldable pub kind_of : Str → TxKind
kind_of t =
    if str_eq t (str "VAL")
    then val
    else if str_eq t (str "CHNGSTK")
    then chngstk
    else if str_eq t (str "CAL")
    then cal
    else if str_eq t (str "BTC-E")
    then btc_e
    else if str_eq t (str "BTC-A")
    then btc_a
    else if str_eq t (str "BTC-C")
    then btc_c
    else if str_eq t (str "NIST")
    then nist
    else if str_eq t (str "DRAND")
    then drand
    else if str_eq t (str "FEE")
    then fee
    else if str_eq t (str "JWK")
    then jwk
    else other
