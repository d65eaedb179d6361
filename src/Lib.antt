-- ===== src/Lib.antt =====
-- A verification library for the Vericonomy SDK, the wallet engine of Vericonomy light wallets.
--
-- The program's parts: a wallet facade discovers the addresses of a seed (gap scan), caches their
-- coins and history, plans a send, signs it and checks what it signed before the network sees it. It
-- calls an engine (coin selection, fees, signing), the wire format and signature hash of Verium
-- transactions, key derivation, and the chain backends that answer over Electrum or a node.
--
-- The model's parts, each beside the code that it follows:
--   Base, Int, Text, Float: lists, a stable sort, integers, `i64` with the wrap-around of a release
--     build, `str` as bytes, and `f64` as a parameter with the operations that the code calls.
--   Errors: vericonomy-errors/src/lib.rs, with `?` as `>>=`. Chain: vericonomy-chain/src/types.rs.
--   Params: the coins of vericonomy-chain-params/src/lib.rs. Hex: the `hex` crate, a parameter.
--   Hd: what scanning and signing call of vericonomy-hd/src/lib.rs, as an interface.
--   Tx: vericonomy-tx/src/lib.rs. Script is FindAndDelete on opcodes; its rounds are as many as the
--     script has bytes, since each round moves on by one at least. Wire is the transaction format
--     over the encodings of the `bitcoin` crate, which are a parameter (Codec) that reads back what
--     it wrote. Sighash is verium_signature_hash with its mutations of the copy as functions, and
--     SHA-256 a parameter. Sign is build_signed_tx_hex with secp256k1 a parameter.
--   Engine: vericonomy-wallet-engine/src. Fees, Select and Plan follow utxo_selector.rs function by
--     function; the eight rounds of its loops are the first argument of `plan_rounds` and
--     `replan_rounds`. Keys is find_signing_key of signer.rs, whose loop of 501 indices is structural
--     recursion on the indices that are left, and Assemble is assemble_transaction and its callers,
--     with the time stamp as an argument.
--   Facade: vericonomy-wallet-facade/src. Balance is balance.rs. GapScan is the scan of one chain in
--     gap_scan.rs: the backend is a function of the index at which it is asked and of the scripts,
--     the hook a function of the funded scripts, and the loop has 503 rounds, one for each index up
--     to 501 and one to leave.
--     Discover is discover_script_hexes, which scans both chains and saves its progress (the record of
--     Storage/Types), ReceiveIndex the search for the index of a script, and
--     Addresses the search for the addresses of scripts.
--     Verify is verify_send_outputs of verify.rs, the check of the payments before a broadcast, and
--     Signatures its check of the signatures. Prepare is utxo_prep.rs, and Send is send.rs, whose
--     state is the list of what was handed to the network. History is the merge of history.rs; the
--     order in which a map gives its values is a parameter.
--   Tx/Toy, Engine/Toy and Storage/Keystore/Toy instantiate the parameters with simple functions for
--     the tests.
--
--   TextMap: `HashMap` with strings as keys. Action: methods that fail and change a state. Recovery:
--     the checks of vericonomy-wallet-core/src/recovery.rs.
--   Storage: vericonomy-storage/src. Types holds the records and the trait of the store that persists
--     them, Crypto the sealing of a phrase, and Keystore the methods of light_keystore.rs on the
--     persisted store, the phrases of the open sessions and the clock: Records seals and opens a
--     record, Sessions creates, imports, unlocks and locks, Indices keeps the counters, scripts and
--     progress of the scan. FileStore is vericonomy-storage-file/src/lib.rs over a file system and
--     serde_json that are parameters.
--   Chain/HistoryRows: vericonomy-chain/src/history_rows.rs. Chain/MultiServer: the agreement of
--     servers in vericonomy-chain/src/electrum/multi_server.rs. Chain/Throttle: the pause after a rate limit
--     in vericonomy-chain/src/electrum/throttle.rs, with instants in seconds.
--
-- Not modelled: the cache of coins, the explorer's history, the sync engine and the session, the
-- backends and the Electrum protocol, the SQLite and iOS stores, the FFI and the command line.
pub mod Base
pub mod Int
pub mod Text
pub mod Errors
pub mod TextMap
pub mod Action
pub mod Recovery
pub mod Storage
pub mod Chain
pub mod Float
pub mod Hex
pub mod Params
pub mod Hd
pub mod Engine
pub mod Tx
pub mod Facade
