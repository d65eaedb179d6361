-- ===== src/Facade.antt =====
-- vericonomy-wallet-facade/src: what a wallet application calls.
pub mod Balance
pub mod GapScan
pub mod Discover
pub mod ReceiveIndex
pub mod Addresses
pub mod Verify
pub mod Prepare
pub mod Signatures
pub mod Send
pub mod History
mod Tests
