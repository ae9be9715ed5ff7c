-- ===== src/Util.antt =====
-- util/util.go
pub mod Tx
pub mod Ids
pub mod TxHex
pub mod Arrays
pub mod Ip
