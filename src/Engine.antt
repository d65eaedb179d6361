-- ===== src/Engine.antt =====
-- vericonomy-wallet-engine: fees, selection of inputs, the send plan.
pub mod Toy
pub mod Fees
pub mod Money
pub mod Select
pub mod Plan
pub mod Keys
pub mod Assemble
pub mod Address
mod Tests
