-- ===== src/Tx.antt =====
-- vericonomy-tx: scripts, the wire format, signature hashes and signing.
pub mod Script
pub mod Wire
pub mod Sighash
pub mod Sign
pub mod Toy
mod Tests
