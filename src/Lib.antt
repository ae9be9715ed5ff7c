-- ===== src/Lib.antt =====
-- Chainpoint Core is an application that Tendermint drives: cores submit transactions, a block at a
-- time, and the application keeps the state of the chain, limits the rate of each core, elects leaders
-- and anchors the calendar to Bitcoin. This library models its core logic.
--
-- The parts, and the files that model them (paths are from the repository's root):
--
--   Types           types/types.go: the records, a field for each field that the code reads.
--   TxRateLimiter   txratelimiter/validation.go: the token buckets and `Validate`, one definition for each
--                   function and for each case of the switch. Children prove what a bucket guarantees
--                   (Bucket), one transaction's effect (Steps), a run's (Burst), and the effect of a
--                   missing record (Unlimited).
--   Util            util/util.go: decoding a transaction and checking its signature (Tx), the bytes of an id
--                   turned around (TxHex), the two kinds of proof ids (Ids), Arrays, and Ip.
--   Strconv         util/util.go: Int64ToByte and ByteToInt64, over the base 10 text of strconv.
--   TxKind          the switches on the type of a transaction.
--   Abci            abci/: the state of the application (App) and what a handler leaves running (Spawn).
--     Deliver       abci/transactions.go, updateStateFromTx: a definition for each case.
--     Identity      abci/stakingidentity.go: SetIdentity, SaveIdentity, VerifyIdentity.
--     Validators    abci/validators.go: parsing and executing a VAL transaction.
--     Check         abci/transactions.go, validateTx, which CheckTx calls; Check.Promotion is about VAL.
--     Block         abci/abci.go and abci/anchor.go: BeginBlock, EndBlock, Commit, StartAnchoring; the
--                   votes that EndBlock takes.
--     Counters, Chain, Anchoring, AppHash, Poison
--                   prove what these handlers do to the transaction counters, to the range that is
--                   anchored, to the application hash, and when a delivery panics.
--   LeaderElection  leaderelection/tmleader.go; Peers has the election among peers, Deterministic is on the
--                   order of Go's maps, Leads on who leads; Sorting is the sort they use.
--   LevelDb         the database, a parameter; LevelDb.KvStore is database/level/cache.go.
--   ProofDb         database/level/chainpointdb.go: the inserts and lookups of proof states; Inserted says
--                   what a lookup finds after an insert.
--   Merkle          merkletools, a parameter with the law that a proof leads from its leaf to the root;
--                   Merkle.Eval is what the items of a proof compute.
--   Aggregator      aggregator/aggregator.go: ProcessAggregation, the queues (Queue), and the threads of
--                   StartAggregation as steps in any order (Threads).
--   Calendar        calendar/calendar.go: the trees of the calendar and of an anchor, and their states.
--   Proof           proof/proof.go: the JSON of a proof and its branches.
--   Pipeline        a hash on its way through these three; Pipeline.Bitcoin goes on to a block.
--   Rpc             tendermintrpc/rpc.go: the searches; Pages and Ranges are on its loops.
--   Anchor          anchor/bitcoin/bitcoinanchor.go: AnchorToChain; Checks has the watched ranges, Headers the
--                   tree of a block, Confirm the way to six confirmations, Batch and Proofs the proofs that
--                   follow; Ranges, Rewards and Confirm.Started state what these do.
--   Abci.CalBatch   abci/anchor.go: AnchorCalendar and its batch of proofs.
--   FloatOps        float32, a parameter with laws of IEEE 754; a value is its 32 bits.
--   Externals       base64, JSON, ASN.1, hashes and ECDSA, parameters without laws.
--   Tests           a concrete instance of every parameter, and the theorems at work on it.
--
-- How they interact: a delivery decodes with Util.Tx, dispatches by TxKind, and changes the state that
-- StartAnchoring, Commit and the limiter read; the elections read the keys that a JWK delivery stores.
-- Hashes are aggregated, the roots of the aggregations go into a tree whose root is a CAL, the CALs of a
-- range go into a tree whose root is in a Bitcoin transaction, and a proof is made of the four paths.
--
-- A handler is a function from the state to the new state and what it returns. A goroutine is a value of
-- Spawn in the handler's result: when it runs is a step of Abci.Chain. A call that can panic returns a
-- `Run`. An int64 is an integer with its wrap-around (inc64, sub64), a Go string is a list of bytes, a map
-- is an association list. A sort is the insertion sort, which has the result of Go's sort where equal
-- elements are alike. The fuel of `decimal` is above the number it prints; that of `put_uvarint`
-- is the size of the buffer, where running out is the panic that the code has.
--
-- The loop over the pages of a search has fuel, and Rpc.Pages says how much is enough. The loop of
-- ConfirmAnchor goes over a list of rounds, which ends where the deadline of five minutes does.
--
-- Not modelled: CheckAnchor, which asks btcd to read a transaction and is a parameter of CheckTx; the
-- pruning of the proof database, and the HTTP interface. Logging, metrics
-- and the texts of errors are left out: an error is a constructor. The fee source, the beacon,
-- analytics, flags and start-up are input and output. So are the broadcasts of the RPC client and the
-- calls of lnd: a parameter says what they answer.
pub mod Abci
pub mod Aggregator
pub mod Anchor
pub mod Calendar
pub mod Externals
pub mod FloatOps
pub mod LeaderElection
pub mod LevelDb
pub mod Merkle
pub mod Pipeline
pub mod Prelude
pub mod Proof
pub mod ProofDb
pub mod Rpc
pub mod Sorting
pub mod Strconv
pub mod Tests
pub mod TxKind
pub mod TxRateLimiter
pub mod Types
pub mod Util
